-- ===== src/Runtime/Stored.antt =====
-- Resolved contracts, and the rows that hold them.
use fomo_demo.Prelude.{
  [], ap, ◌∙◌, ℕ, String, Bool, true, false, not, ◌≡◌, refl, sym, Option, none, some, List, ◌∷◌,
  ◌==◌, ok, ltb, leb, all, contains, is_blank, eq_iff, eq_refl, and_left, and_right, not→false,
  >>=-eq-ok, >>-eq-ok, ok_inj, arith, ◌∈◌, eqb, Bool-cases, inl, inr,
}
use fomo_demo.Runtime.{RuntimeProfile, find_profile, runtime_profile, default_max_spend_micros}
use fomo_demo.Runtime.Contract.{
  RuntimeContract, columns_of, resolve_runtime_contract, runtime_contract_from_storage,
  from_catalogue, agrees_with_profile, is_valid_token_contract, contract_for, minimum, thinking_or,
  value_or,
}
use fomo_demo.Runtime.Catalogue.{find_profile-IsEntry, runtime_profile-found}

minimum_same : (a : ℕ) → minimum a a ≡ a
minimum_same a = ground arith

minimum_left : (a b : ℕ) → leb (minimum a b) a ≡ true
minimum_left a b = ground arith

leb-ltb : (a b : ℕ) → leb a b ≡ false → ltb b a ≡ true
leb-ltb a b h = ground arith

eqb_same : (a : ℕ) → eqb a a ≡ true
eqb_same a = ground arith

contains-all :
    (p : String → Bool) (x : String) (xs : List String) → all p xs ≡ true → x ∈ xs → p x ≡ true
contains-all p x (y ∷ ys) a m = elim (Bool-cases (y == x)) [
  | inl e ↦ rw (sym ((eq_iff y x).0 e)) (and_left (p y) _ a)
  | inr e ↦ contains-all p x ys (and_right (p y) _ a) (rw e at m)
]
contains-all p x [] a m = cc

-- A level of a profile resolves with the profile's own limits.
pub resolve-named :
    (id level : String) (p : RuntimeProfile)
    → find_profile id ≡ some p
    → level ∈ p.thinking_levels
    → resolve_runtime_contract id (some level) none none
      ≡ ok (contract_for p level p.inference_tpm_limit default_max_spend_micros)
unfolding resolve_runtime_contract runtime_profile
resolve-named id level p f m =
    let (entry, same) = find_profile-IsEntry id p f in
    let named : is_blank level ≡ false =
      not→false _
        (contains-all (λ (t : String). not (is_blank t)) level p.thinking_levels entry.named m) in
    rw (f, named, m, minimum_same p.inference_tpm_limit, entry.headroom) refl

-- A contract that was resolved for a profile.
pub record IsResolved (id : String) (c : RuntimeContract) : Type 0 where
  pub profile : RuntimeProfile
  pub found : find_profile id ≡ some profile
  pub level : c.thinking ∈ profile.thinking_levels
  pub shape : c ≡ contract_for profile c.thinking c.inference_tpm_limit c.max_spend_micros
  pub headroom : leb c.inference_tpm_limit profile.context_window ≡ false
  pub limited : leb c.inference_tpm_limit profile.inference_tpm_limit ≡ true
  pub funded : leb c.max_spend_micros 0 ≡ false

pub resolve-IsResolved :
    (id : String) (thinking : Option String) (tpm spend : Option ℕ) (c : RuntimeContract)
    → resolve_runtime_contract id thinking tpm spend ≡ ok c
    → IsResolved id c
unfolding resolve_runtime_contract
resolve-IsResolved id thinking tpm spend c h =
    let (p, found, h1) = >>=-eq-ok (runtime_profile id) _ h in
    let level = thinking_or thinking p.default_thinking in
    let limit = minimum p.inference_tpm_limit (value_or tpm p.inference_tpm_limit) in
    let money = value_or spend default_max_spend_micros in
    let (supported, h2) = >>-eq-ok (contains p.thinking_levels level) _ _ h1 in
    let (room, h3) = >>-eq-ok (not (leb limit p.context_window)) _ _ h2 in
    let (paid, e) = >>-eq-ok (not (leb money 0)) _ _ h3 in
    rw (sym (ok_inj e)) (record {
      profile = p;
      found = runtime_profile-found id p found;
      level = supported;
      shape = refl;
      headroom = not→false _ room;
      limited = minimum_left p.inference_tpm_limit (value_or tpm p.inference_tpm_limit);
      funded = not→false _ paid;
    })

-- A level that is not blank is the contract's.
pub resolve-level :
    (id level : String) (tpm spend : Option ℕ) (c : RuntimeContract)
    → resolve_runtime_contract id (some level) tpm spend ≡ ok c
    → is_blank level ≡ false
    → c.thinking ≡ level
unfolding resolve_runtime_contract
resolve-level id level tpm spend c h named =
    let (p, found, h1) = >>=-eq-ok (runtime_profile id) _ h in
    let limit = minimum p.inference_tpm_limit (value_or tpm p.inference_tpm_limit) in
    let money = value_or spend default_max_spend_micros in
    let (supported, h2) =
      >>-eq-ok (contains p.thinking_levels (thinking_or (some level) p.default_thinking)) _ _ h1 in
    let (room, h3) = >>-eq-ok (not (leb limit p.context_window)) _ _ h2 in
    let (paid, e) = >>-eq-ok (not (leb money 0)) _ _ h3 in rw (sym (ok_inj e), named) refl

-- the columns of a resolved contract
stored-resolved :
    (p : RuntimeProfile) (level : String) (tpm spend : ℕ)
    → find_profile p.profile_id ≡ some p
    → level ∈ p.thinking_levels
    → leb tpm p.context_window ≡ false
    → leb tpm p.inference_tpm_limit ≡ true
    → leb spend 0 ≡ false
    → runtime_contract_from_storage (columns_of (contract_for p level tpm spend))
      ≡ ok (contract_for p level tpm spend)
unfolding runtime_contract_from_storage from_catalogue agrees_with_profile is_valid_token_contract
stored-resolved p level tpm spend f m room limited funded =
    let (entry, same) = find_profile-IsEntry p.profile_id p f in
    rw
      (
        resolve-named p.profile_id level p f m,
        eq_refl p.model_ref,
        eqb_same p.context_window,
        leb-ltb tpm p.context_window room,
        limited,
        funded,
        entry.alias,
      )
      refl

-- Whatever the profile, the level and the limits that a contract was resolved with, the row that holds
-- it is read back as the same contract.
pub resolve-from_storage :
    (id : String) (thinking : Option String) (tpm spend : Option ℕ) (c : RuntimeContract)
    → resolve_runtime_contract id thinking tpm spend ≡ ok c
    → runtime_contract_from_storage (columns_of c) ≡ ok c
resolve-from_storage id thinking tpm spend c h =
    let s : IsResolved id c = resolve-IsResolved id thinking tpm spend c h in
    let (entry, same) = find_profile-IsEntry id s.profile s.found in
    let known : find_profile s.profile.profile_id ≡ some s.profile =
      ap find_profile same ∙ s.found in
    rw s.shape (
      stored-resolved s.profile c.thinking c.inference_tpm_limit c.max_spend_micros known s.level
        s.headroom s.limited s.funded)
