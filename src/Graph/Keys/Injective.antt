-- ===== src/Graph/Keys/Injective.antt =====
-- No two criteria share a durable key, and no two tests a file.
use Prim.Native.Char.{Char, code}
use Prim.Native.String.{◌++◌}
use text.Mathlib.TextLemmas.{
  nil-append, cons-append, cons-eq-cons, append_cancel_left, append_cancel_right,
}
use mathlib.Core.Path.{ap₂}
use fomo_demo.Prelude.{
  ok_inj, and_left, and_right, String, true, false, ◌≡◌, refl, ap, sym, ◌∙◌, ok, arith, Bool-cases,
  inl, inr, >>=-eq-ok, ◌≢◌, ◌&&◌, >>-eq-ok,
}
use fomo_demo.Contracts.Syntax.{is_word, all_chars, is_identifier, is_alnum}
use fomo_demo.Graph.Keys.{
  safe_identifier, acceptance_persistence_key, acceptance_test_path, navigation_evidence_key, ℕ,
  eqb, suite_version, unsupported_suite,
}

-- A text with no separator in it can be read back from what precedes the first separator.
split_at :
    (sep : Char) (x x' y y' : String)
    → is_word (code sep) ≡ false
    → all_chars is_word x ≡ true
    → all_chars is_word x' ≡ true
    → x ++ (String.◌∷◌ sep y) ≡ x' ++ (String.◌∷◌ sep y')
    → (x ≡ x') × (y ≡ y')
unfolding all_chars
split_at sep String.[] String.[] y y' s w w' h =
    let e : String.◌∷◌ sep y ≡ String.◌∷◌ sep y' = rw (nil-append, nil-append) at h in
    (refl, (cons-eq-cons.0 e).1)
split_at sep String.[] (String.◌∷◌ c x') y y' s w w' h =
    let e : String.◌∷◌ sep y ≡ String.◌∷◌ c (x' ++ String.◌∷◌ sep y') =
      rw (nil-append, cons-append) at h in
    cc (
      s,
      and_left (is_word (code c)) (all_chars is_word x') w',
      ap (λ k. is_word (code k)) (cons-eq-cons.0 e).0,
    )
split_at sep (String.◌∷◌ c x) String.[] y y' s w w' h =
    let e : String.◌∷◌ c (x ++ String.◌∷◌ sep y) ≡ String.◌∷◌ sep y' =
      rw (cons-append, nil-append) at h in
    cc (
      s,
      and_left (is_word (code c)) (all_chars is_word x) w,
      ap (λ k. is_word (code k)) (cons-eq-cons.0 e).0,
    )
split_at sep (String.◌∷◌ c x) (String.◌∷◌ d x') y y' s w w' h =
    let e : String.◌∷◌ c (x ++ String.◌∷◌ sep y) ≡ String.◌∷◌ d (x' ++ String.◌∷◌ sep y') =
      rw (cons-append, cons-append) at h in
    let (first_eq, rest_eq) = cons-eq-cons.0 e in
    let (xs, ys) =
      split_at sep x x' y y' s (and_right (is_word (code c)) _ w)
        (and_right (is_word (code d)) _ w') rest_eq in
    (ap₂ String.◌∷◌ first_eq xs, ys)

identifier_chars : (s : String) → is_identifier s ≡ true → all_chars is_word s ≡ true
unfolding is_identifier
identifier_chars String.[] h = refl
identifier_chars (String.◌∷◌ c s) h = ground arith

safe_identifier-eq-ok :
    (strip : String → String) (v s : String)
    → safe_identifier strip v ≡ ok s
    → (strip v ≡ s) × (is_identifier s ≡ true)
unfolding safe_identifier
safe_identifier-eq-ok strip v s h = elim (Bool-cases (is_identifier (strip v))) [
  | inl e ↦ let same : strip v ≡ s = ok_inj (rw e at h) in (same, rw same at e)
  | inr e ↦ cc (rw e at h)
]

begins_apart : (s y z : String) → is_identifier s ≡ true → s ++ y ≢ String.◌∷◌ "_" z
unfolding is_identifier is_alnum
begins_apart String.[] y z h e = cc
begins_apart (String.◌∷◌ c s) y z h e =
    let same : c ≡ "_" = (cons-eq-cons.0 (rw cons-append at e)).0 in
    let lead : is_alnum (code "_") ≡ true = rw same at (
      and_left (is_alnum (code c)) (all_chars is_word s)
        (and_right _ (is_alnum (code c) && all_chars is_word s) h)) in
    cc lead

module _ (strip : String → String) where
  -- Two pairs of a goal and a criterion that have the same durable key are the same pair, once
  -- stripped: the separator occurs in no identifier.
  pub acceptance_persistence_key_injective :
      (g a g' a' k : String)
      → acceptance_persistence_key strip g a ≡ ok k
      → acceptance_persistence_key strip g' a' ≡ ok k
      → (strip g ≡ strip g') × (strip a ≡ strip a')
  unfolding acceptance_persistence_key is_word
  acceptance_persistence_key_injective g a g' a' k h h' =
      let (sg, eg, h1) = >>=-eq-ok (safe_identifier strip g) _ h in
      let (sa, ea, h2) = >>=-eq-ok (safe_identifier strip a) _ h1 in
      let (sg', eg', h1') = >>=-eq-ok (safe_identifier strip g') _ h' in
      let (sa', ea', h2') = >>=-eq-ok (safe_identifier strip a') _ h1' in
      let (g1, gw) = safe_identifier-eq-ok strip g sg eg in
      let (a1, aw) = safe_identifier-eq-ok strip a sa ea in
      let (g2, gw') = safe_identifier-eq-ok strip g' sg' eg' in
      let (a2, aw') = safe_identifier-eq-ok strip a' sa' ea' in
      let joined : sg ++ ":" ++ sa ≡ sg' ++ ":" ++ sa' = ok_inj h2 ∙ sym (ok_inj h2') in
      let (xs, ys) =
        split_at ":" sg sg' sa sa' refl (identifier_chars sg gw) (identifier_chars sg' gw')
          (rw (cons-append, nil-append, cons-append, nil-append) at joined) in
      (g1 ∙ xs ∙ sym g2, a1 ∙ ys ∙ sym a2)

  -- Two pairs of a goal and a test with the same file are the same pair, once stripped.
  pub acceptance_test_path_injective :
      (g t g' t' p : String)
      → acceptance_test_path strip g t ≡ ok p
      → acceptance_test_path strip g' t' ≡ ok p
      → (strip g ≡ strip g') × (strip t ≡ strip t')
  unfolding acceptance_test_path is_word
  acceptance_test_path_injective g t g' t' p h h' =
      let (sg, eg, h1) = >>=-eq-ok (safe_identifier strip g) _ h in
      let (st, et, h2) = >>=-eq-ok (safe_identifier strip t) _ h1 in
      let (sg', eg', h1') = >>=-eq-ok (safe_identifier strip g') _ h' in
      let (st', et', h2') = >>=-eq-ok (safe_identifier strip t') _ h1' in
      let (g1, gw) = safe_identifier-eq-ok strip g sg eg in
      let (t1, tw) = safe_identifier-eq-ok strip t st et in
      let (g2, gw') = safe_identifier-eq-ok strip g' sg' eg' in
      let (t2, tw') = safe_identifier-eq-ok strip t' st' et' in
      let joined : "tests/fomo-acceptance" ++ "/" ++ sg ++ "/" ++ st ++ ".smoke.spec.ts"
          ≡ "tests/fomo-acceptance" ++ "/" ++ sg' ++ "/" ++ st' ++ ".smoke.spec.ts" =
        ok_inj h2 ∙ sym (ok_inj h2') in
      let tails : sg ++ "/" ++ st ++ ".smoke.spec.ts" ≡ sg' ++ "/" ++ st' ++ ".smoke.spec.ts" =
        append_cancel_left "/" _ _ (append_cancel_left "tests/fomo-acceptance" _ _ joined) in
      let (xs, ys) =
        split_at "/" sg sg' (st ++ ".smoke.spec.ts") (st' ++ ".smoke.spec.ts") refl
          (identifier_chars sg gw) (identifier_chars sg' gw')
          (rw (cons-append, nil-append, cons-append, nil-append) at tails) in
      (g1 ∙ xs ∙ sym g2, t1 ∙ append_cancel_right st st' ".smoke.spec.ts" ys ∙ sym t2)

  -- A navigation key is never the key of a criterion: no identifier begins with its underscore.
  pub navigation_evidence_key_apart :
      (version : ℕ) (n g a k k' : String)
      → navigation_evidence_key strip version n ≡ ok k
      → acceptance_persistence_key strip g a ≡ ok k'
      → k ≢ k'
  unfolding navigation_evidence_key acceptance_persistence_key
  navigation_evidence_key_apart version n g a k k' h h' e =
      let (_, h0) = >>-eq-ok (eqb version suite_version) unsupported_suite _ h in
      let (sn, en, h1) = >>=-eq-ok (safe_identifier strip n) _ h0 in
      let (sg, eg, h1') = >>=-eq-ok (safe_identifier strip g) _ h' in
      let (sa, ea, h2') = >>=-eq-ok (safe_identifier strip a) _ h1' in
      let (g1, gw) = safe_identifier-eq-ok strip g sg eg in
      begins_apart sg (":" ++ sa) ("_fomo_navigation_v1" ++ ":" ++ sn) gw
        (ok_inj h2' ∙ sym e ∙ sym (ok_inj h1) ∙ cons-append "_" "_fomo_navigation_v1" (":" ++ sn))
