-- ===== src/Runtime/Catalogue.antt =====
-- What the entries of the catalogue have in common.
use fomo_demo.Prelude.{
  ◌||◌, contains, String, true, false, not, ◌≡◌, refl, Option, none, some, ◌==◌, ok, leb, all,
  is_blank, first-In, All, All-In, eq_iff, unique,
}
use fomo_demo.Runtime.{
  max_context_window, RuntimeProfile, runtime_profiles, find_profile, runtime_profile,
  is_valid_profile, found_profile,
}
use fomo_demo.Runtime.Contract.{after_slash}

-- The facts of an entry that its contracts rest on.
pub record IsEntry (p : RuntimeProfile) : Type 0 where
  pub valid : is_valid_profile p ≡ true
  pub alias : after_slash p.model_ref ≡ p.litellm_alias
  pub headroom : leb p.inference_tpm_limit p.context_window ≡ false
  pub named : all (λ (level : String). not (is_blank level)) p.thinking_levels ≡ true
  pub override : (not (p.profile_id == "deepseek-flash") || contains p.thinking_levels "off") ≡ true
  pub bounded : leb p.context_window max_context_window ≡ true

catalogue-IsEntry : All IsEntry runtime_profiles
unfolding is_valid_profile after_slash unique
catalogue-IsEntry = (
  record {
    valid = refl;
    alias = refl;
    headroom = refl;
    named = refl;
    override = refl;
    bounded = refl;
  },
  (
    record {
      valid = refl;
      alias = refl;
      headroom = refl;
      named = refl;
      override = refl;
      bounded = refl;
    },
    (
      record {
        valid = refl;
        alias = refl;
        headroom = refl;
        named = refl;
        override = refl;
        bounded = refl;
      },
      (
        record {
          valid = refl;
          alias = refl;
          headroom = refl;
          named = refl;
          override = refl;
          bounded = refl;
        },
        (
          record {
            valid = refl;
            alias = refl;
            headroom = refl;
            named = refl;
            override = refl;
            bounded = refl;
          },
          (
            record {
              valid = refl;
              alias = refl;
              headroom = refl;
              named = refl;
              override = refl;
              bounded = refl;
            },
            (
              record {
                valid = refl;
                alias = refl;
                headroom = refl;
                named = refl;
                override = refl;
                bounded = refl;
              },
              tt,
            ),
          ),
        ),
      ),
    ),
  ),
)

pub find_profile-IsEntry :
    (id : String) (p : RuntimeProfile) → find_profile id ≡ some p → IsEntry p × (p.profile_id ≡ id)
find_profile-IsEntry id p h =
    let (m, e) = first-In (λ (x : RuntimeProfile). x.profile_id == id) p runtime_profiles h in
    (All-In IsEntry p runtime_profiles catalogue-IsEntry m, (eq_iff p.profile_id id).0 e)

found_profile-found :
    (o : Option RuntimeProfile) (p : RuntimeProfile) → found_profile o ≡ ok p → o ≡ some p
found_profile-found none p h = cc
found_profile-found (some q) p h = cc

pub runtime_profile-found :
    (id : String) (p : RuntimeProfile) → runtime_profile id ≡ ok p → find_profile id ≡ some p
unfolding runtime_profile
runtime_profile-found id p h = found_profile-found (find_profile id) p h
