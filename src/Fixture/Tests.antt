-- ===== src/Fixture/Tests.antt =====
-- Names of the fixture of e2e/gen_fixture.py.
use rules_elide.Prelude.{◌≡◌, refl}
use rules_elide.Prelude.Text.{codes}
use rules_elide.Prelude.Decimal.{decimal, zeros}
use rules_elide.Fixture.{zfill, tag_width}

tag_of_seven : zfill (tag_width 200) (decimal 7) ≡ codes "007"
unfolding zfill tag_width decimal zeros
tag_of_seven = refl
