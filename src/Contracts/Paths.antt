-- ===== src/Contracts/Paths.antt =====
-- The grammar of current paths against the historical one.
use Prim.Native.Char.{code}
use fomo_demo.Prelude.{String, Bool, true, false, not, ◌≡◌, refl, arith, eqb}
use fomo_demo.Contracts.Syntax.{
  is_path_char, all_chars, path_rest, matches_local_path, matches_legacy_path, is_local_path,
  is_legacy_path, starts_with_slashes,
}

path_rest→chars : (b : Bool) (s : String) → path_rest b s ≡ true → all_chars is_path_char s ≡ true
unfolding path_rest all_chars is_path_char
path_rest→chars b String.[] h = refl
path_rest→chars b (String.◌∷◌ c s) h = ground (arith, path_rest→chars (not (eqb (code c) b'/')) s)

local→legacy : (s : String) → matches_local_path s ≡ true → matches_legacy_path s ≡ true
unfolding matches_local_path matches_legacy_path all_chars
local→legacy String.[] h = cc
local→legacy (String.◌∷◌ c String.[]) h = ground arith
local→legacy (String.◌∷◌ c (String.◌∷◌ d s)) h =
    ground (arith, path_rest→chars false (String.◌∷◌ d s))

-- A current path is never protocol-relative.
pub is_local_path-no_slashes : (s : String) → is_local_path s ≡ true → starts_with_slashes s ≡ false
unfolding is_local_path starts_with_slashes
is_local_path-no_slashes String.[] h = refl
is_local_path-no_slashes (String.◌∷◌ c String.[]) h = refl
is_local_path-no_slashes (String.◌∷◌ c (String.◌∷◌ d s)) h = ground arith

-- Every current path is in the historical grammar.
pub is_local_path→legacy : (s : String) → is_local_path s ≡ true → is_legacy_path s ≡ true
unfolding is_local_path is_legacy_path
is_local_path→legacy s h = ground (arith, local→legacy s)
