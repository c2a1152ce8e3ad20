-- ===== src/Contracts/Syntax.antt =====
-- The string constraints of direct_pi/contracts.py, as matchers over code points: `Identifier`,
-- `LocalPath` and the historical path grammar of direct_pi/goalgraph.py.
use Prim.Native.Char.{code}
use Prim.Native.String.{count}
use fomo_demo.Prelude.{
  ℕ, String, Bool, true, false, not, ◌&&◌, ◌||◌, List, [], ◌∷◌, leb, eqb, is_blank,
}

-- [A-Za-z0-9]
unfoldable pub is_alnum : ℕ → Bool
is_alnum c = leb b'A' c && leb c b'Z' || leb b'a' c && leb c b'z' || leb b'0' c && leb c b'9'

-- [A-Za-z0-9_-]
unfoldable pub is_word : ℕ → Bool
unfolding is_alnum
is_word c = is_alnum c || eqb c b'_' || eqb c b'-'

-- [...]*$
unfoldable pub all_chars : (ℕ → Bool) → String → Bool
all_chars p String.[] = true
all_chars p (String.◌∷◌ c s) = p (code c) && all_chars p s

-- ^[A-Za-z0-9][A-Za-z0-9_-]*$
unfoldable pub matches_identifier : String → Bool
matches_identifier String.[] = false
matches_identifier (String.◌∷◌ c s) = is_alnum (code c) && all_chars is_word s

-- what `Identifier` asks of a stripped text
unfoldable pub is_identifier : String → Bool
unfolding matches_identifier all_chars is_word
is_identifier s = leb 1 (count s) && leb (count s) 64 && matches_identifier s

-- The rest of a path; the flag says whether the current segment has a character.
unfoldable pub path_rest : Bool → String → Bool
path_rest started String.[] = started
path_rest started (String.◌∷◌ c s) =
    let slash = eqb (code c) b'/' in
    (slash && started || not slash && is_word (code c)) && path_rest (not slash) s

-- ^/$|^/[A-Za-z0-9_-]+(?:/[A-Za-z0-9_-]+)*$
unfoldable pub matches_local_path : String → Bool
matches_local_path String.[] = false
matches_local_path (String.◌∷◌ c s) = eqb (code c) b'/' && (is_blank s || path_rest false s)

unfoldable pub is_local_path : String → Bool
unfolding matches_local_path path_rest is_word
is_local_path s = leb 1 (count s) && leb (count s) 200 && matches_local_path s

unfoldable pub is_path_char : ℕ → Bool
unfolding is_word
is_path_char c = is_word c || eqb c b'/'

-- ^/[A-Za-z0-9/_-]*$
unfoldable pub matches_legacy_path : String → Bool
matches_legacy_path String.[] = false
matches_legacy_path (String.◌∷◌ c s) = eqb (code c) b'/' && all_chars is_path_char s

unfoldable pub is_legacy_path : String → Bool
unfolding matches_legacy_path all_chars is_path_char
is_legacy_path s = leb 1 (count s) && leb (count s) 200 && matches_legacy_path s

-- path.startswith("//")
unfoldable pub starts_with_slashes : String → Bool
starts_with_slashes (String.◌∷◌ c (String.◌∷◌ d s)) = eqb (code c) b'/' && eqb (code d) b'/'
starts_with_slashes _ = false

abbrev pub allowed_roles : List String
allowed_roles =
    "alert" ∷ "alertdialog" ∷ "button" ∷ "checkbox" ∷ "columnheader" ∷ "combobox" ∷ "dialog"
    ∷ "grid" ∷ "heading" ∷ "link" ∷ "list" ∷ "listitem" ∷ "main" ∷ "navigation" ∷ "option" ∷ "radio"
    ∷ "row" ∷ "searchbox" ∷ "spinbutton" ∷ "status" ∷ "switch" ∷ "tab" ∷ "table" ∷ "textbox" ∷ []
