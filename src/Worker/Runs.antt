-- ===== src/Worker/Runs.antt =====
-- Calls of the incremental worker in an environment that can be evaluated.
use rules_elide.Prelude.{
  ℕ, ◌⊎◌, ◌||◌, ◌^◌, ◌<◌, ◌≡◌, ◌∙◌, refl, ap, sym, subst, true, false, List, [], ◌∷◌, ◌++◌, map,
  arith, All, none, some, ok, length, length-append, if◌then◌else◌, Bool-cases, inl, inr,
}
use rules_elide.Prelude.Text.{
  Text, codes, join, text_eq, text_eq_iff, has_text, ends_with, starts_with, strip,
}
use rules_elide.Worker.Messages.{Input, WorkRequest}
use rules_elide.Worker.Messages.Arguments.{IsCarried}
use rules_elide.Worker.Signature.{
  Digests, index_of, any_text, is_conservative, split_path, jars, classpath_jars, classpath,
  insert_input, sort_inputs, is_tracked_natively, input_blobs, signed_blobs, frames, signature,
}
use rules_elide.Worker.Signature.Classpath.{IsTracked, is_tracked_natively_iff}
use rules_elide.Worker.Signature.Frames.{IsBlob}
use rules_elide.Worker.Signature.Laws.{IsEdit, signature-map}
use rules_elide.Worker.Signature.Covered.{IsIn, signature_determines}
use rules_elide.Worker.Incremental.{Env, Outside, start, positions, handle, run}
use rules_elide.Worker.Incremental.State.{Inv, start-Inv}
use rules_elide.Worker.Incremental.Steps.{run-start-Inv}
use rules_elide.Worker.Incremental.Memory.{handle-remember, remembered, remember}

abbrev plain : Digests
plain = record {
  utf8 = record { encode = λ t. t; decode = λ bytes. some bytes };
  sha256 = λ bytes. bytes;
  base64 = λ bytes. bytes;
  path_leb = λ p q. true;
}

-- A name that is longer than all others.
abbrev longest : List Text → Text
longest roots = 1 ∷ join roots

abbrev here : Env
here = record { digests = plain; absolute = λ t. t; resolve = λ p q. p ++ q; fresh = longest }

longer_is_new :
    (t : Text) (roots : List Text) → length (join roots) < length t → has_text t roots ≡ false
unfolding has_text
longer_is_new t [] h = refl
longer_is_new t (r ∷ roots) h = elim (Bool-cases (text_eq r t)) [
  | inl same ↦
      absurd (omega (arith, h, ap length ((text_eq_iff r t).0 same), length-append r (join roots)))
  | inr other ↦ rw other (longer_is_new t roots (omega (arith, h, length-append r (join roots))))
]

longest-new : (roots : List Text) → has_text (longest roots) roots ≡ false
longest-new roots = longer_is_new (longest roots) roots (omega arith)

abbrev compile_request : Text → WorkRequest
compile_request digest = record {
  fields = [];
  arguments = codes "--" ∷ codes "A.kt" ∷ codes "-d" ∷ codes "a.jar" ∷ [];
  inputs = record { path = codes "A.kt"; digest = digest } ∷ [];
  request_id = 0;
}

-- A compiler that succeeds, and one that has closed its stream.
abbrev succeeds : Outside
succeeds = record {
  reply = λ sent.
      ok (some (record { bytes = []; exit_code = 0; request_id = sent.request_id; output = [] }));
  packs = true;
}

abbrev closed : Outside
closed = record { reply = λ sent. ok none; packs = true }

compile_request-positions :
    (digest : Text) → positions (compile_request digest).arguments ≡ ok (0, 2, codes "a.jar")
unfolding positions index_of text_eq
compile_request-positions digest = refl

run-start-Inv_example : Inv (
    run here ((succeeds, compile_request (1 ∷ [])) ∷ (closed, compile_request (2 ∷ [])) ∷ []) start)
run-start-Inv_example =
    run-start-Inv here longest-new
      ((succeeds, compile_request (1 ∷ [])) ∷ (closed, compile_request (2 ∷ [])) ∷ [])

handle-remember_example :
    remembered (handle here succeeds (compile_request (1 ∷ [])) start).0 (codes "a.jar")
    ≡ remember
        (codes "a.jar")
        (signature plain (compile_request (1 ∷ [])))
        (handle here succeeds (compile_request (1 ∷ [])) start).1
        (remembered start)
        (codes "a.jar")
handle-remember_example =
    handle-remember here longest-new succeeds (compile_request (1 ∷ [])) start start-Inv
      (compile_request-positions (1 ∷ [])) (codes "a.jar")

-- A source, a jar of the class path, and a file that is neither.
abbrev jar_request : List ℕ → List ℕ → WorkRequest
jar_request source jar = record {
  fields = [];
  arguments = codes "--" ∷ codes "-cp" ∷ codes "classes:b.jar" ∷ codes "-d" ∷ codes "a.jar" ∷ [];
  inputs =
      record { path = codes "A.kt"; digest = source }
      ∷ record { path = codes "b.jar"; digest = jar }
      ∷ record { path = codes "lib.txt"; digest = 7 ∷ [] }
      ∷ [];
  request_id = 0;
}

-- A new digest for each Kotlin source and for the jar.
abbrev touch : Input → Input
touch i =
    if ends_with i.path (codes ".kt") || text_eq i.path (codes "b.jar")
    then record { path = i.path; digest = 2 ∷ [] }
    else i

abbrev call : List Text
call = (jar_request [] []).arguments

b_jar : is_tracked_natively (classpath call) (record { path = codes "b.jar"; digest = [] }) ≡ true
unfolding is_tracked_natively classpath any_text is_conservative starts_with strip index_of text_eq
    classpath_jars split_path jars ends_with has_text
b_jar = refl

touch-IsEdit : IsEdit call touch
touch-IsEdit = record {
  keeps_path = λ i.
      elim (Bool-cases (ends_with i.path (codes ".kt") || text_eq i.path (codes "b.jar"))) [
        | inl h ↦ rw h refl
        | inr h ↦ rw h refl
      ];
  keeps_covered = λ i h. elim (Bool-cases (ends_with i.path (codes ".kt"))) [
    | inl kotlin ↦ absurd (h (inl kotlin))
    | inr other ↦ elim (Bool-cases (text_eq i.path (codes "b.jar"))) [
      | inl same ↦ absurd (
          h (
            subst (IsTracked call) (sym ((text_eq_iff i.path (codes "b.jar")).0 same))
              ((is_tracked_natively_iff call _).0 b_jar)))
      | inr differs ↦ rw (other, differs) refl
    ]
  ];
}

signature-map_example :
    signature plain (record (jar_request (1 ∷ []) (1 ∷ [])) {
      inputs = map touch (jar_request (1 ∷ []) (1 ∷ [])).inputs;
    })
    ≡ signature plain (jar_request (1 ∷ []) (1 ∷ []))
signature-map_example = signature-map plain (jar_request (1 ∷ []) (1 ∷ [])) touch touch-IsEdit

plain-IsCarried : (t : Text) → length t < 2 ^ 31 → IsCarried plain.utf8 t
plain-IsCarried t h = record { short = h; decoded = refl }

arguments-IsCarried : All (IsCarried plain.utf8) call
arguments-IsCarried = (
  plain-IsCarried (codes "--") (omega arith),
  (
    plain-IsCarried (codes "-cp") (omega arith),
    (
      plain-IsCarried (codes "classes:b.jar") (omega arith),
      (
        plain-IsCarried (codes "-d") (omega arith),
        (plain-IsCarried (codes "a.jar") (omega arith), tt),
      ),
    ),
  ),
)

paths-IsCarried :
    (digest : List ℕ) → All (λ i. IsCarried plain.utf8 i.path) (jar_request digest digest).inputs
paths-IsCarried digest = (
  plain-IsCarried (codes "A.kt") (omega arith),
  (
    plain-IsCarried (codes "b.jar") (omega arith),
    (plain-IsCarried (codes "lib.txt") (omega arith), tt),
  ),
)

blobs : List (List ℕ)
blobs =
    codes "--"
    ∷ codes "-cp"
    ∷ codes "classes:b.jar"
    ∷ codes "-d"
    ∷ codes "a.jar"
    ∷ codes "lib.txt"
    ∷ (7 ∷ [])
    ∷ []

same_blobs : (digest : List ℕ) → signed_blobs plain (jar_request digest digest) ≡ blobs
unfolding blobs signed_blobs classpath any_text is_conservative starts_with strip index_of text_eq
    classpath_jars split_path jars sort_inputs insert_input input_blobs is_tracked_natively
    ends_with has_text
same_blobs digest = refl

blobs-short : All IsBlob blobs
unfolding blobs
blobs-short = (
  omega arith,
  (omega arith, (omega arith, (omega arith, (omega arith, (omega arith, (omega arith, tt)))))),
)

same_signature :
    signature plain (jar_request (1 ∷ []) (1 ∷ []))
    ≡ signature plain (jar_request (2 ∷ []) (2 ∷ []))
unfolding signature
same_signature = ap (λ b. frames b) (same_blobs (1 ∷ []) ∙ sym (same_blobs (2 ∷ [])))

signature_determines_example :
    (call ≡ call)
    × All
        (λ i. IsTracked call i.path ⊎ IsIn i (jar_request (2 ∷ []) (2 ∷ [])).inputs)
        (jar_request (1 ∷ []) (1 ∷ [])).inputs
    × All
        (λ i. IsTracked call i.path ⊎ IsIn i (jar_request (1 ∷ []) (1 ∷ [])).inputs)
        (jar_request (2 ∷ []) (2 ∷ [])).inputs
signature_determines_example =
    signature_determines plain (jar_request (1 ∷ []) (1 ∷ [])) (jar_request (2 ∷ []) (2 ∷ [])) refl
      arguments-IsCarried arguments-IsCarried (paths-IsCarried (1 ∷ [])) (paths-IsCarried (2 ∷ []))
      (subst (All IsBlob) (sym (same_blobs (1 ∷ []))) blobs-short)
      (subst (All IsBlob) (sym (same_blobs (2 ∷ []))) blobs-short) (λ e. e) same_signature
