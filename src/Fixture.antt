-- ===== src/Fixture.antt =====
-- e2e/gen_fixture.py: the files that `main` writes to the two directories, in order.
pub mod Names
mod Tests
use rules_elide.Prelude.{ℕ, zero, suc, ◌+◌, ◌-◌, ◌%◌, List, [], ◌∷◌, ◌++◌, length}
use rules_elide.Prelude.Text.{Text, codes, join}
use rules_elide.Prelude.Decimal.{decimal, zeros}

-- `s.zfill(width)` of a text without a sign.
unfoldable pub zfill : ℕ → Text → Text
zfill width s = zeros (width - length s) ++ s

-- `len(str(n - 1))`
unfoldable pub tag_width : ℕ → ℕ
tag_width zero = 2
tag_width (suc n) = length (decimal n)

unfoldable pub kotlin_source : ℕ → Text → Text
kotlin_source i tag = join (
    codes
      "package gen\n\n// Generated benchmark fixture — do not edit by hand (see e2e/gen_fixture.py).\nobject Gen"
    ∷ tag
    ∷ codes
        " {\n  fun transform(xs: List<Int>): Map<String, List<Int>> =\n    xs.groupBy { \"bucket${it % "
    ∷ decimal (3 + i % 5)
    ∷ codes
        "}\" }.mapValues { (_, v) -> v.sorted() }\n\n  fun pipeline(n: Int): List<Pair<Int, String>> =\n    (0 until n).map { it to \"v"
    ∷ tag
    ∷ codes
        "_$it\" }.filter { it.first % 2 == 0 }\n\n  fun reduce(items: List<Pair<String, Int>>): Map<String, Int> =\n    items.fold(mutableMapOf<String, Int>()) { acc, (k, v) -> acc.apply { merge(k, v, Int::plus) } }\n\n  fun seed(): List<Int> = generateSequence("
    ∷ decimal i
    ∷ codes ") { it + 1 }.take("
    ∷ decimal (8 + i % 7)
    ∷ codes ").toList()\n}\n"
    ∷ [])

unfoldable pub java_source : ℕ → Text → Text
java_source i tag = join (
    codes
      "package gen;\n\nimport java.util.List;\nimport java.util.Map;\nimport java.util.stream.Collectors;\nimport java.util.stream.IntStream;\n\n// Generated benchmark fixture — do not edit by hand (see e2e/gen_fixture.py).\npublic final class GenJava"
    ∷ tag
    ∷ codes " {\n  private GenJava"
    ∷ tag
    ∷ codes
        "() {}\n\n  public static Map<String, Integer> counts(List<String> xs) {\n    return xs.stream().collect(Collectors.groupingBy(s -> s, Collectors.summingInt(s -> 1)));\n  }\n\n  public static int total(int[] a) {\n    int s = 0;\n    for (int x : a) s += x;\n    return s + "
    ∷ decimal i
    ∷ codes
        ";\n  }\n\n  public static List<Integer> evens(int n) {\n    return IntStream.range(0, n).filter(x -> x % 2 == 0).boxed().collect(Collectors.toList());\n  }\n}\n"
    ∷ [])

-- The files of `range(n)` in the directory gen/kotlin, from `i` on.
unfoldable pub kotlin_files : ℕ → ℕ → ℕ → List (Text × Text)
kotlin_files width i zero = []
kotlin_files width i (suc left) =
    let tag = zfill width (decimal i) in
    (codes "Gen" ++ (tag ++ codes ".kt"), kotlin_source i tag) ∷ kotlin_files width (suc i) left

-- And in gen/java.
unfoldable pub java_files : ℕ → ℕ → ℕ → List (Text × Text)
java_files width i zero = []
java_files width i (suc left) =
    let tag = zfill width (decimal i) in
    (codes "GenJava" ++ (tag ++ codes ".java"), java_source i tag) ∷ java_files width (suc i) left

unfoldable pub fixture_files : ℕ → List (Text × Text) × List (Text × Text)
fixture_files n = (kotlin_files (tag_width n) 0 n, java_files (tag_width n) 0 n)
