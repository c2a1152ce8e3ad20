-- ===== src/Runtime/Admission.antt =====
-- The levels that a framework admits, and `resolve_runtime_contract`.
use fomo_demo.Prelude.{
  String, Bool, true, false, ◌&&◌, ◌||◌, ◌≡◌, refl, sym, List, [], ◌∷◌, ◌==◌, ok, none, some,
  contains, keep, eq_iff, and_right, >>=-eq-ok, ok_inj, guard-eq-ok, arith, ◌∈◌, Bool-cases, inl,
  inr,
}
use fomo_demo.Runtime.{RuntimeProfile, find_profile, runtime_profile, default_max_spend_micros}
use fomo_demo.Runtime.Frameworks.{
  codex_thinking_levels, levels_for, normalize_agent_framework, validate_agent_framework_profile,
  compatible_thinking_levels_for_agent_framework_profile, validate_agent_framework_runtime,
}
use fomo_demo.Runtime.Contract.{resolve_runtime_contract, contract_for}
use fomo_demo.Runtime.Catalogue.{IsEntry, find_profile-IsEntry, runtime_profile-found}
use fomo_demo.Runtime.Stored.{resolve-named}

contains-keep : (p : String → Bool) (x : String) (xs : List String) → x ∈ keep p xs → x ∈ xs
contains-keep p x [] m = m
contains-keep p x (y ∷ ys) m = elim (Bool-cases (y == x)) [
  | inl e ↦ rw e refl
  | inr e ↦ elim (Bool-cases (p y)) [
    | inl h ↦ rw e (contains-keep p x ys (rw (h, e) at m))
    | inr h ↦ rw e (contains-keep p x ys (rw h at m))
  ]
]

or_false : (b : Bool) → (b || false) ≡ true → b ≡ true
or_false b h = ground arith

-- The levels of a framework are levels of the profile.
levels_for-profile :
    (framework level : String) (p : RuntimeProfile)
    → IsEntry p
    → level ∈ levels_for framework p
    → level ∈ p.thinking_levels
levels_for-profile framework level p entry m =
    elim (Bool-cases (framework == "opencode" && p.profile_id == "deepseek-flash")) [
      | inl e ↦
          let d : (p.profile_id == "deepseek-flash") ≡ true =
            and_right (framework == "opencode") _ e in
          let only : (("off" == level) || false) ≡ true = rw e at m in
          let same : "off" ≡ level = (eq_iff "off" level).0 (or_false ("off" == level) only) in
          rw (sym same) (rw d at entry.override)
      | inr e ↦ elim (Bool-cases (framework == "codex")) [
        | inl c ↦
            contains-keep (contains codex_thinking_levels) level p.thinking_levels (rw (e, c) at m)
        | inr c ↦ rw (e, c) at m
      ]
    ]

module _ (normalized : String → String) where
  -- Whatever value names the framework: a level that is admitted for a profile is one that the profile
  -- resolves as it is, with the profile's own limits.
  pub validate_agent_framework_runtime-resolves :
      (value profile_id level : String)
      → validate_agent_framework_runtime normalized value profile_id level ≡ ok tt
      → (p : RuntimeProfile) × (find_profile profile_id ≡ some p)
        × (resolve_runtime_contract profile_id (some level) none none
            ≡ ok (contract_for p level p.inference_tpm_limit default_max_spend_micros))
  unfolding validate_agent_framework_runtime compatible_thinking_levels_for_agent_framework_profile
  validate_agent_framework_runtime-resolves value profile_id level h =
      let (framework, a1, h1) = >>=-eq-ok (normalize_agent_framework normalized value) _ h in
      let (levels, a2, h2) =
        >>=-eq-ok
          (compatible_thinking_levels_for_agent_framework_profile normalized framework profile_id) _
          h1 in
      let (valid, b1, k1) =
        >>=-eq-ok (validate_agent_framework_profile normalized framework profile_id) _ a2 in
      let (again, b2, k2) = >>=-eq-ok (normalize_agent_framework normalized framework) _ k1 in
      let (p, found, k3) = >>=-eq-ok (runtime_profile profile_id) _ k2 in
      let f = runtime_profile-found profile_id p found in
      let m : level ∈ levels_for again p =
        rw (sym (ok_inj k3)) at (guard-eq-ok (contains levels level) _ h2) in
      (
        p,
        f,
        resolve-named profile_id level p f
            (levels_for-profile again level p (find_profile-IsEntry profile_id p f).0 m),
      )
