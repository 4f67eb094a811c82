-- ===== src/State/Names.antt =====
-- internal/state/store.go: validGitHubRepository, validGitHubName and validGitBranch. `strings.ToLower`
-- is for ASCII.
use snailmail.Base.{
  leb, ◌==◌, if◌then◌else◌, length, Bytes, codes, ◌==ᵇ◌, is_digit, is_alpha, has_prefix, has_suffix,
  all, every, ℕ, Bool, false, not, ◌&&◌, ◌||◌, List, [], ◌∷◌,
}
use snailmail.Hexdigest.{to_lower}

-- `strings.Contains(value, text)`
unfoldable pub has_text : Bytes → Bytes → Bool
unfolding has_prefix
has_text [] text = has_prefix [] text
has_text (c ∷ s) text = has_prefix (c ∷ s) text || has_text s text

unfoldable pub is_name_byte : ℕ → Bool
unfolding is_alpha is_digit
is_name_byte c = is_alpha c || is_digit c || c == 45 || c == 95 || c == 46

unfoldable pub valid_github_name : Bytes → Bool
unfolding ◌==ᵇ◌ has_prefix has_suffix all is_name_byte
valid_github_name value =
    not (value ==ᵇ [])
    && leb (length value) 100
    && not (has_prefix value (codes "."))
    && not (has_suffix value (codes "."))
    && all is_name_byte value

-- `strings.Split`
unfoldable pub split_on : ℕ → Bytes → List Bytes
split_on sep [] = [] ∷ []
split_on sep (c ∷ s) =
    let rest = split_on sep s in
    if c == sep
    then [] ∷ rest
    else elim rest [ [] ↦ (c ∷ []) ∷ [] | first ∷ more ↦ (c ∷ first) ∷ more ]

unfoldable pub are_owner_and_name : List Bytes → Bool
unfolding valid_github_name to_lower has_suffix
are_owner_and_name (owner ∷ name ∷ []) =
    valid_github_name owner
    && valid_github_name name
    && not (has_suffix (to_lower name) (codes ".git"))
are_owner_and_name _ = false

unfoldable pub valid_github_repository : Bytes → Bool
unfolding split_on are_owner_and_name
valid_github_repository value = are_owner_and_name (split_on 47 value)

abbrev is_branch_component : Bytes → Bool
is_branch_component s = not (s ==ᵇ []) && not (has_prefix s (codes "."))

-- Not a byte that git forbids in a branch; `codes` are those of ~^:?*[\
unfoldable pub is_branch_byte : ℕ → Bool
is_branch_byte c = not (
    leb c 32
    || c == 127
    || c == 126
    || c == 94
    || c == 58
    || c == 63
    || c == 42
    || c == 91
    || c == 92)

unfoldable pub valid_git_branch : Bytes → Bool
unfolding ◌==ᵇ◌ has_prefix has_suffix has_text split_on every all is_branch_byte
valid_git_branch value =
    not (value ==ᵇ [])
    && not (value ==ᵇ codes "@")
    && not (has_prefix value (codes "/"))
    && not (has_suffix value (codes "/"))
    && not (has_suffix value (codes "."))
    && not (has_suffix value (codes ".lock"))
    && not (has_text value (codes ".."))
    && not (has_text value (codes "@{"))
    && not (has_text value (codes "//"))
    && every is_branch_component (split_on 47 value)
    && all is_branch_byte value
