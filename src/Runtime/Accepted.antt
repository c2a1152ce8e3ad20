-- ===== src/Runtime/Accepted.antt =====
-- What a stored contract that is read back is like.
use fomo_demo.Prelude.{
  ℕ, Bool, true, not, ◌&&◌, ◌≡◌, refl, sym, ap, ◌∙◌, ◌⊎◌, inl, inr, Option, none, some, [], ◌∷◌,
  ◌==◌, ok, ltb, leb, eqb, contains, is_blank, eq_iff, and_left, and_right, >>-eq-ok, ok_inj, arith,
  ◌∈◌, ◌≤◌, ◌<◌, Bool-cases, String, false, >>=-eq-ok, if◌then◌else◌,
}
use fomo_demo.Runtime.{RuntimeProfile, find_profile, max_context_window}
use fomo_demo.Runtime.Contract.{
  is_token_budget, after_slash, RuntimeContract, RuntimeColumns, resolve_runtime_contract,
  from_legacy, agrees_with_profile, is_valid_token_contract, same_contract, same_number,
  legacy_runtime_contract, current_policy, previous_policy, previous_max_tokens, candidate_of,
  runtime_contract_from_storage, from_catalogue, legacy_policy,
}
use fomo_demo.Runtime.Catalogue.{find_profile-IsEntry}
use fomo_demo.Runtime.Stored.{IsResolved, resolve-IsResolved, resolve-level}

-- The token budget: none under the current policy, within the profile's under the previous one.
abbrev pub IsBudget : RuntimeContract → Type 0
IsBudget c =
    ((c.policy_version ≡ current_policy) × (c.run_max_tokens ≡ none))
    ⊎ ((n : ℕ) × (c.policy_version ≡ previous_policy)
        × (c.run_max_tokens ≡ some n)
        × (c.context_window ≤ n)
        × (n ≤ previous_max_tokens c.profile_id))

-- A contract within a profile of the catalogue. Its level is blank or one of the profile's.
pub record IsWithin (c : RuntimeContract) : Type 0 where
  pub profile : RuntimeProfile
  pub found : find_profile c.profile_id ≡ some profile
  pub level : (is_blank c.thinking ≡ true) ⊎ (c.thinking ∈ profile.thinking_levels)
  pub model : c.model_ref ≡ profile.model_ref
  pub alias : c.litellm_alias ≡ profile.litellm_alias
  pub window : c.context_window ≡ profile.context_window
  pub bounded : c.context_window ≤ max_context_window
  pub headroom : c.context_window < c.inference_tpm_limit
  pub limited : c.inference_tpm_limit ≤ profile.inference_tpm_limit
  pub funded : 0 < c.max_spend_micros
  pub budget : IsBudget c

both : (a b : Bool) → (a && b) ≡ true → (a ≡ true) × (b ≡ true)
both a b h = (and_left a b h, and_right a b h)

eqb-eq : (a b : ℕ) → eqb a b ≡ true → a ≡ b
eqb-eq a b h = ground arith

same_number-eq : (a b : Option ℕ) → same_number a b ≡ true → a ≡ b
same_number-eq none none h = refl
same_number-eq none (some b) h = cc
same_number-eq (some a) none h = cc
same_number-eq (some a) (some b) h = ap some (ground arith)

five :
    (a1 a2 a3 a4 a5 : Bool)
    → (a1 && a2 && a3 && a4 && a5) ≡ true
    → (a1 ≡ true) × (a2 ≡ true) × (a3 ≡ true) × (a4 ≡ true) × (a5 ≡ true)
five a1 a2 a3 a4 a5 h =
    let (h4, e5) = both (a1 && a2 && a3 && a4) a5 h in
    let (h3, e4) = both (a1 && a2 && a3) a4 h4 in
    let (h2, e3) = both (a1 && a2) a3 h3 in let (e1, e2) = both a1 a2 h2 in (e1, e2, e3, e4, e5)

nine :
    (a1 a2 a3 a4 a5 a6 a7 a8 a9 : Bool)
    → (a1 && a2 && a3 && a4 && a5 && a6 && a7 && a8 && a9) ≡ true
    → (a1 ≡ true)
      × (a2 ≡ true)
      × (a3 ≡ true)
      × (a4 ≡ true)
      × (a5 ≡ true)
      × (a6 ≡ true)
      × (a7 ≡ true)
      × (a8 ≡ true)
      × (a9 ≡ true)
nine a1 a2 a3 a4 a5 a6 a7 a8 a9 h =
    let (h8, e9) = both (a1 && a2 && a3 && a4 && a5 && a6 && a7 && a8) a9 h in
    let (h7, e8) = both (a1 && a2 && a3 && a4 && a5 && a6 && a7) a8 h8 in
    let (h6, e7) = both (a1 && a2 && a3 && a4 && a5 && a6) a7 h7 in
    let (h5, e6) = both (a1 && a2 && a3 && a4 && a5) a6 h6 in
    let (e1, e2, e3, e4, e5) = five a1 a2 a3 a4 a5 h5 in (e1, e2, e3, e4, e5, e6, e7, e8, e9)

same_contract-eq : (a b : RuntimeContract) → same_contract a b ≡ true → a ≡ b
unfolding same_contract
same_contract-eq a b h =
    let (id, model, alias, thinking, window, policy, tokens, tpm, spend) =
      nine (a.profile_id == b.profile_id) (a.model_ref == b.model_ref)
        (a.litellm_alias == b.litellm_alias) (a.thinking == b.thinking)
        (eqb a.context_window b.context_window) (a.policy_version == b.policy_version)
        (same_number a.run_max_tokens b.run_max_tokens)
        (eqb a.inference_tpm_limit b.inference_tpm_limit)
        (eqb a.max_spend_micros b.max_spend_micros) h in
    let e1 = (eq_iff a.profile_id b.profile_id).0 id in
    let e2 = (eq_iff a.model_ref b.model_ref).0 model in
    let e3 = (eq_iff a.litellm_alias b.litellm_alias).0 alias in
    let e4 = (eq_iff a.thinking b.thinking).0 thinking in
    let e5 = eqb-eq a.context_window b.context_window window in
    let e6 = (eq_iff a.policy_version b.policy_version).0 policy in
    let e7 = same_number-eq a.run_max_tokens b.run_max_tokens tokens in
    let e8 = eqb-eq a.inference_tpm_limit b.inference_tpm_limit tpm in
    let e9 = eqb-eq a.max_spend_micros b.max_spend_micros spend in cc

if_true : {A : Type 0} (b : Bool) (x y : A) → b ≡ true → (if b then x else y) ≡ x
if_true b x y h = rw h refl

legacy-IsFrozen :
    (r : RuntimeColumns) (c : RuntimeContract) → from_legacy r ≡ ok c → c ≡ legacy_runtime_contract
unfolding from_legacy
legacy-IsFrozen r c h =
    let (same, e) = >>-eq-ok (same_contract (candidate_of r) legacy_runtime_contract) _ _ h in
    sym (ok_inj e) ∙ same_contract-eq (candidate_of r) legacy_runtime_contract same

previous_of :
    (x : String)
    → contains (previous_policy ∷ current_policy ∷ []) x ≡ true
    → (x == current_policy) ≡ false
    → x ≡ previous_policy
previous_of x p c =
    ground (arith, eq_iff previous_policy x, eq_iff current_policy x, eq_iff x current_policy)

token_contract-IsBudget :
    (r : RuntimeColumns) (current : Bool) (tokens : Option ℕ)
    → (r.policy_version == current_policy) ≡ current
    → r.run_max_tokens ≡ tokens
    → contains (previous_policy ∷ current_policy ∷ []) r.policy_version ≡ true
    → is_token_budget r current tokens ≡ true
    → IsBudget (candidate_of r)
token_contract-IsBudget r true none c t p h = inl ((eq_iff r.policy_version current_policy).0 c, t)
token_contract-IsBudget r true (some n) c t p h = cc
token_contract-IsBudget r false none c t p h = cc
token_contract-IsBudget r false (some n) c t p h =
    let (low, high) = both (leb r.context_window n) (leb n (previous_max_tokens r.profile_id)) h in
    inr (n, previous_of r.policy_version p c, t, ground (arith, low), ground (arith, high))

agrees_with_profile-IsWithin :
    (r : RuntimeColumns) (expected : RuntimeContract)
    → contains (previous_policy ∷ current_policy ∷ []) r.policy_version ≡ true
    → resolve_runtime_contract r.profile_id (some r.thinking) none none ≡ ok expected
    → agrees_with_profile r expected ≡ true
    → IsWithin (candidate_of r)
unfolding agrees_with_profile is_valid_token_contract
agrees_with_profile-IsWithin r expected p e h =
    let (model, window, tokens, limits, paid) =
      five (expected.model_ref == r.model_ref) (eqb expected.context_window r.context_window)
        (is_valid_token_contract r)
        (ltb r.context_window r.inference_tpm_limit
          && leb r.inference_tpm_limit expected.inference_tpm_limit)
        (not (leb r.max_spend_micros 0)) h in
    let (over, under) =
      both (ltb r.context_window r.inference_tpm_limit)
        (leb r.inference_tpm_limit expected.inference_tpm_limit) limits in
    let s : IsResolved r.profile_id expected =
      resolve-IsResolved r.profile_id (some r.thinking) none none expected e in
    let (entry, same) = find_profile-IsEntry r.profile_id s.profile s.found in
    let m : r.model_ref ≡ s.profile.model_ref =
      sym ((eq_iff expected.model_ref r.model_ref).0 model)
      ∙ ap (λ (c : RuntimeContract). c.model_ref) s.shape in
    let w : r.context_window ≡ s.profile.context_window =
      sym (eqb-eq expected.context_window r.context_window window)
      ∙ ap (λ (c : RuntimeContract). c.context_window) s.shape in
    record {
      profile = s.profile;
      found = s.found;
      level = elim (Bool-cases (is_blank r.thinking)) [
        | inl b ↦ inl b
        | inr b ↦
            inr (rw (sym (resolve-level r.profile_id r.thinking none none expected e b)) s.level)
      ];
      model = m;
      alias = ap after_slash m ∙ entry.alias;
      window = w;
      bounded = rw w (ground (arith, entry.bounded));
      headroom = ground arith;
      limited = ground (arith, under, s.limited);
      funded = ground arith;
      budget =
          token_contract-IsBudget r (r.policy_version == current_policy) r.run_max_tokens refl refl
            p tokens;
    }

-- Every row that is read back is the frozen legacy contract, or it is within its profile of the
-- catalogue: the profile's model and context window, a throughput above the window and at most the
-- profile's, a positive spend budget, and no token ceiling except under the previous policy, where it
-- is between the window and the profile's ceiling. Its level is blank or one of the profile's.
pub runtime_contract_from_storage-IsWithin :
    (r : RuntimeColumns) (c : RuntimeContract)
    → runtime_contract_from_storage r ≡ ok c
    → (c ≡ legacy_runtime_contract) ⊎ IsWithin c
unfolding runtime_contract_from_storage from_catalogue
runtime_contract_from_storage-IsWithin r c h =
    elim (Bool-cases (r.policy_version == legacy_policy)) [
      | inl e ↦ inl (
          legacy-IsFrozen r c (
            sym (if_true (r.policy_version == legacy_policy) (from_legacy r) (from_catalogue r) e)
            ∙ h))
      | inr e ↦
          let (known, h1) =
            >>-eq-ok (contains (previous_policy ∷ current_policy ∷ []) r.policy_version) _ _
              (rw e at h) in
          let (expected, resolved, h2) =
            >>=-eq-ok (resolve_runtime_contract r.profile_id (some r.thinking) none none) _ h1 in
          let (current, same) = >>-eq-ok (agrees_with_profile r expected) _ _ h2 in
          inr (
            rw (sym (ok_inj same)) (agrees_with_profile-IsWithin r expected known resolved current))
    ]
