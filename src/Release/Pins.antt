-- ===== src/Release/Pins.antt =====
-- elide/private/versions.bzl: the pinned hashes of the releases and of their Python overlays.
use rules_elide.Prelude.{List, [], ◌∷◌}
use rules_elide.Prelude.Text.{Text, codes}
use rules_elide.Prelude.Dict.{Dict}

-- A key `(os, cpu)`.
abbrev pub Platform : Type 0
Platform = Text × Text

-- Hashes by platform.
abbrev pub Integrities : Type 0
Integrities = List (Platform × Text)

abbrev pub linux_amd64 : Platform
linux_amd64 = (codes "linux", codes "amd64")

abbrev pub linux_arm64 : Platform
linux_arm64 = (codes "linux", codes "arm64")

abbrev pub macos_arm64 : Platform
macos_arm64 = (codes "macos", codes "arm64")

abbrev pub windows_amd64 : Platform
windows_amd64 = (codes "windows", codes "amd64")

unfoldable pub elide_versions : Dict Integrities
elide_versions =
    (
      codes "1.2.0+20260602",
      (linux_amd64, codes "sha256-yIQZwU4nM0SN19Zj2rdikdWBpj9d+fVlJK0d10p3DRA=")
          ∷ (linux_arm64, codes "sha256-XDRm/XcEnTZ7rvGs2ExpGXEwvZnrdfG8WOzygAhZt1M=")
          ∷ (macos_arm64, codes "sha256-qaZ7vN9GJWF5c+lZoMkmTvFuuKfZndxt5YpEkWgVpT8=")
          ∷ (windows_amd64, codes "sha256-vaT3d/mbyEnS7Rk+z0ahj273eS9enolQ5QeQ9hW5how=")
          ∷ [],
    )
    ∷ (
      codes "1.2.0+20260603",
      (linux_amd64, codes "sha256-MT9d986Ih7Z/SrKIMPvnY0hsG20euG2KnLAQMm9h+uk=")
          ∷ (linux_arm64, codes "sha256-L+fDxoRB4/58OgRLS/HP2he7XNnEK8LjtfbS8Az9Xqg=")
          ∷ (macos_arm64, codes "sha256-KqhHWtnNNIFbmbwhWiZGgQRrnlHUAep9Y0l7flYgMQc=")
          ∷ (windows_amd64, codes "sha256-5oMvVWvJs+RMThCqulVLLAVoT0YCVICzTrb+J9u+o4k=")
          ∷ [],
    )
    ∷ (
      codes "1.3.0+20260613",
      (linux_amd64, codes "sha256-FT946xuQORvo0WHMCnc1lTpLrVWFRXwUSV7CaW+PmRQ=")
          ∷ (linux_arm64, codes "sha256-LpV8H6kLCWj8rG/YML3UpKnKRZ9o7Ol0peBIPxCK3cU=")
          ∷ (macos_arm64, codes "sha256-QaGRSFamhOq7ERe8DIZFmU4zRdygbjwNO+A3WEyDCvw=")
          ∷ (windows_amd64, codes "sha256-Hb+Bv3X4XEUb5vb5qYOjpTQJqP9OGmq+LQHIE3w2htU=")
          ∷ [],
    )
    ∷ (
      codes "1.3.1+20260614",
      (linux_amd64, codes "sha256-Sh7mC2OG4uptqbvs6kq4S2Zg0PoA0ONHqKnrRnaJCUc=")
          ∷ (linux_arm64, codes "sha256-wa5nWSXbLKbl0i5mZ26Mgjmnjwf5u6skABqbaNwdVhM=")
          ∷ (macos_arm64, codes "sha256-bFg+N6K7ri0vE8oMNy5JrnLkxL1/4yOgHvvs+ATlMQ4=")
          ∷ (windows_amd64, codes "sha256-XhKStYzKMh+MZaXmI7FiX124xW33y950skgcTn/Fh8M=")
          ∷ [],
    )
    ∷ (
      codes "1.3.2+20260615",
      (linux_amd64, codes "sha256-0XxUyCH1A5SSXSgMCREtcHUC0GS0Wx6aSdvCopq2oIY=")
          ∷ (linux_arm64, codes "sha256-K9uLfqaPPL/UdCktdj3QkoTGbtPVegXGgfkp7HgWuro=")
          ∷ (macos_arm64, codes "sha256-VR0Q1qU3QfY4rmbv6ezh/LG9NhaNmU+zk+9o6DQRGN8=")
          ∷ (windows_amd64, codes "sha256-JH2WvFNv4Ln7awDzApjwggDOyRPNaY2km5wksMPjXJU=")
          ∷ [],
    )
    ∷ (
      codes "1.3.3+20260619",
      (linux_amd64, codes "sha256-Wrnt9B8urDNfhd8Rc8DP8xMgDtBJ+GcjOMIK0QiR8tY=")
          ∷ (linux_arm64, codes "sha256-iubsEQ7FfckmNKcCUMJg/lFcVYyxqIIGwPLYCAZ9rIM=")
          ∷ (macos_arm64, codes "sha256-rDCAwBgy4nihEtjjuspGgResNVeG9A+BF3b5Itlqh1c=")
          ∷ (windows_amd64, codes "sha256-WHMPa413nJkmu9dNPofgGMFNEDr2wdBCRWomLY7es7E=")
          ∷ [],
    )
    ∷ (
      codes "1.3.4+20260622",
      (linux_amd64, codes "sha256-3I+SteZc6Bn+cIk0CI5KT/KytXtJEJKAdxCbwba/IOw=")
          ∷ (linux_arm64, codes "sha256-IkRgHlBw9YGQT3SNPB+OcgGB4a2dYk7zIQn4U9W2Mws=")
          ∷ (macos_arm64, codes "sha256-Hs8fx481MzyQp7XhOAzFCJ0m7yUadLG6tNDU8UfLvdw=")
          ∷ (windows_amd64, codes "sha256-n0zb+aCyeQcvIXqC2DbSXVlqfu2/OKCloN6HDiCQRns=")
          ∷ [],
    )
    ∷ (
      codes "1.3.4+20260623",
      (linux_amd64, codes "sha256-bpTATZwNpgUfDE35uLOSRIh07m+XVH7zlNu3jVzqkug=")
          ∷ (linux_arm64, codes "sha256-ysQj8ZBR/gY89sicy19/3TvrJ3yYtooqwP1N8xqIqfE=")
          ∷ (macos_arm64, codes "sha256-d9bWfO/J/Ph5QjrsQJG58sQIOiDjS2+GZveS0drZJLA=")
          ∷ (windows_amd64, codes "sha256-HM6XeDnJ+QlWDjz9NSXVhsIwWwWtReUsLIuYpdl/eXs=")
          ∷ [],
    )
    ∷ (
      codes "1.3.6+20260628",
      (linux_amd64, codes "sha256-ANmWaNt9sBG9GLyfN7Kt8E82Hn2a91or9PHqabusVSY=")
          ∷ (linux_arm64, codes "sha256-I9+3rUuHMivY3zw0idfwhvqqU0o22c+PSALkyJgDcUk=")
          ∷ (macos_arm64, codes "sha256-IPUIc9kYzc1mxpva0PX88yGA7UsWS+dneXTfhJxUxRA=")
          ∷ (windows_amd64, codes "sha256-mKvMV80P8OFl0Qw1fTjH33qRw239sIPqJ0m18VAhlt8=")
          ∷ [],
    )
    ∷ (
      codes "1.4.0+20260707",
      (linux_amd64, codes "sha256-kG1Dko6oW7QpIk5I1MmCYVQFTg/qcmlyFT1xqpAbv58=")
          ∷ (linux_arm64, codes "sha256-U/gK+QL65sIAkCeiG/JaEylYHNJli0+mNJ8EXLhA8xo=")
          ∷ (macos_arm64, codes "sha256-wJhyP+Lijt0VLyTfCYKMDOkhuUVxbDUkn3tXhn33+Yc=")
          ∷ (windows_amd64, codes "sha256-JQiNk43a5XhS1seUHpZP7bD4XkMExwMOCQb34+sMCm0=")
          ∷ [],
    )
    ∷ (
      codes "1.6.0",
      (linux_amd64, codes "sha256-vus2eTze9Kis/OrmBPolmfF2O9EGgEwO+fu35fe/2X4=")
          ∷ (linux_arm64, codes "sha256-iAwLDYkqhlIeLVb/sXxLvN+dbr2eyd+fLfvNOpZCVTE=")
          ∷ (macos_arm64, codes "sha256-cTEKx6IkaKmuuoXCh7s6UvE819POiUBE5p6ZjGkOvts=")
          ∷ (windows_amd64, codes "sha256-YcH7aJ0G/SAUwU8jX5PmT9xvLhW8Dlzfy7vhI2a0cC8=")
          ∷ [],
    )
    ∷ (
      codes "1.6.1",
      (linux_amd64, codes "sha256-GmC5bRnyouw+Gwmc8A50p1rjHuXX+GAhzQl/r7Yo+F0=")
          ∷ (linux_arm64, codes "sha256-28FjUUP+bOACRHXbKeJZwt7OUNgr2gbKBitcMpRHgsk=")
          ∷ (macos_arm64, codes "sha256-NDba6kd2GEQx0Qgitvs4WhgskWwtrH5pekyZF9pQqAY=")
          ∷ (windows_amd64, codes "sha256-M/E21TnlG1dxMmIjxzkkn7p8uZ/lLevSWfpiluPtk0k=")
          ∷ [],
    )
    ∷ (
      codes "1.6.2",
      (linux_amd64, codes "sha256-pxUjqiqNMZS8wP3O0X9pgJiER+7XSla/s9tVbFwQn2Q=")
          ∷ (linux_arm64, codes "sha256-oN75/opmbBJ2TC0j4lQSmVYph+x9YKMDztXyg17QnMk=")
          ∷ (macos_arm64, codes "sha256-02+nhbgrRix1MvL+oaNL9A0kpgfE4GLzqeNJToNUIas=")
          ∷ (windows_amd64, codes "sha256-H6N9UxXnwSPfSe+CCvgjhlKsl7c609n6t0vZD60n53I=")
          ∷ [],
    )
    ∷ (
      codes "1.6.2+20261102",
      (linux_amd64, codes "sha256-SjxCCwEiAkC72KAZ8snyhIsE5oIHidtvz5EQ/cnFtic=")
          ∷ (linux_arm64, codes "sha256-PZ0Iz0MI0wzuh5yfrsaWVoTtY32QEfbFDjnp3W9fFUI=")
          ∷ (macos_arm64, codes "sha256-GT7f9pI1qnqlSODT28QmqRfHHbJVolAlk5ty2cRb12M=")
          ∷ (windows_amd64, codes "sha256-l4PudXm+w7Z+rW06YfWb36gIsnxPej/wFXPzm7A1THw=")
          ∷ [],
    )
    ∷ (
      codes "1.6.2+20261103",
      (linux_amd64, codes "sha256-f4KH8UbrtZvzWtsMpNCznuHJt5hkwJ0lfVP4qL0OV5g=")
          ∷ (linux_arm64, codes "sha256-/j9RtVcwRWYbPeYsE9awPZWIDxcwFKCyZUqHQRQC5ts=")
          ∷ (macos_arm64, codes "sha256-GnVUGQRvtprtA+yHMPyl2hd+0nOKnXlg6GS0TAZ5YVQ=")
          ∷ (windows_amd64, codes "sha256-QGpc+878ce0fY1FCRGl26jPF/hpwfmI7K8kQzoz+WwU=")
          ∷ [],
    )
    ∷ []

unfoldable pub python_versions : Dict Integrities
python_versions =
    (
      codes "1.6.0",
      (linux_amd64, codes "sha256-gLotWfj25gSuN2VUNXQ3skRY2UDCrJF73aUBdR91lls=")
          ∷ (linux_arm64, codes "sha256-wNRIowaC+HNHUi5tNKLvKxEJgEvy82DTfFD8+M8C4mk=")
          ∷ (macos_arm64, codes "sha256-fd6qoReJbl4Gvz3NzMGerAkN+eE9jok0ZazhXsk8c+M=")
          ∷ (windows_amd64, codes "sha256-+xqLXAfKTJCDX78DkghTsW/YnVMNJOaWgp0x+0F96qk=")
          ∷ [],
    )
    ∷ (
      codes "1.6.1",
      (linux_amd64, codes "sha256-YmIOPh42td7fdeANOarqPlZX/cT+qR0pos3Zsg7iXwE=")
          ∷ (linux_arm64, codes "sha256-1TwZj3BPXozxvbAHyUBhRsH2duzwBOxU5E/1Ro0iR7Y=")
          ∷ (macos_arm64, codes "sha256-fGecSbblca907ZvQZGbdel1HIWFoiEIHG/mYR9P+d3o=")
          ∷ (windows_amd64, codes "sha256-3JhE1eG76dKt6APP7T9peXwuDRfgCZaBwaUV1L6NPaM=")
          ∷ [],
    )
    ∷ (
      codes "1.6.2",
      (linux_amd64, codes "sha256-EVdxVQsuz+zcqOSb0uJwNz/vOVdzD+auplmEFGPCmUI=")
          ∷ (linux_arm64, codes "sha256-2oxQeHkidDuVyvVK5LIuauA5QotnWMz+JNl/LAhS7s4=")
          ∷ (macos_arm64, codes "sha256-rHmobVfNDoiCp5P4r+N56JxaSn4Bw85TYcb0C086qpE=")
          ∷ (windows_amd64, codes "sha256-0VnDnF0gRk9k+1evvUdR7XxCZwbwDLMsBTbwcAmS/fU=")
          ∷ [],
    )
    ∷ (
      codes "1.6.2+20261102",
      (linux_amd64, codes "sha256-KiPGUzh4Dba33VEUCKSsBW/C+sQ58dNbVsUMmYBYQEs=")
          ∷ (linux_arm64, codes "sha256-Wm8dV0vSrTIR5h05eVcCpjT+Hv7FWrnOefa1yjKzHUY=")
          ∷ (macos_arm64, codes "sha256-AC9hl/B6I7kC/60hy9LidBIE/Rhk6jqwz/cfuIcGGZ8=")
          ∷ (windows_amd64, codes "sha256-2yGUN2NR/6UHTcKjHYufeyRv+qI2lfmC6la0NW+iEek=")
          ∷ [],
    )
    ∷ (
      codes "1.6.2+20261103",
      (linux_amd64, codes "sha256-jxgGFOuGbGETtMhksa7fXv5kFooTgu+Oo9ccYJkWP7w=")
          ∷ (linux_arm64, codes "sha256-TcPJK1ww0de8sjfkRCTB8IpCNofvzL7SUajpwqA1dV8=")
          ∷ (macos_arm64, codes "sha256-OcgC4rg0spTC7jQjL1El57QXwL+EL/incoh7fpIR5ME=")
          ∷ (windows_amd64, codes "sha256-hgxcgJCeTff+YsXLxZ3ImHxL3RhUeuK29FsfpQ2xkFY=")
          ∷ [],
    )
    ∷ []
