-- ===== src/Paths.antt =====
-- What the program uses of `pathlib.PurePosixPath`: paths are lists of code points.
use hands_free_auto_lab_port.Prelude.{
  ℕ, Bool, true, false, not, ◌&&◌, ◌||◌, List, [], ◌∷◌, ◌++◌, ◌==◌, if◌then◌else◌, codes,
  starts_with_code, split, is_dot, is_dot_dot, is_nil, any,
}

abbrev behind : List ℕ → List ℕ
behind [] = []
behind (c ∷ cs) = cs

-- `/`, or `//` where a path starts with exactly two slashes; empty in a relative path
unfoldable pub posix_root : List ℕ → List ℕ
unfolding starts_with_code
posix_root path =
    if not (starts_with_code b'/' path)
    then []
    else if starts_with_code b'/' (behind path)
        && not (starts_with_code b'/' (behind (behind path)))
    then b'/' ∷ b'/' ∷ []
    else b'/' ∷ []

-- the names in a path: empty parts and `.` are left out
unfoldable pub keep_names : List (List ℕ) → List (List ℕ)
keep_names [] = []
keep_names (part ∷ parts) =
    let rest = keep_names parts in if is_nil part || is_dot part then rest else part ∷ rest

unfoldable pub posix_names : List ℕ → List (List ℕ)
unfolding keep_names split
posix_names path = keep_names (split b'/' path)

-- `"/".join(names)`
unfoldable pub join : List (List ℕ) → List ℕ
join [] = []
join (name ∷ []) = name
join (name ∷ (next ∷ names)) = name ++ (b'/' ∷ join (next ∷ names))

-- `str(PurePosixPath(path))`
unfoldable pub posix_str : List ℕ → List ℕ
unfolding posix_root posix_names join
posix_str path =
    let text = posix_root path ++ join (posix_names path) in if is_nil text then b'.' ∷ [] else text

unfoldable pub same_codes : List ℕ → List ℕ → Bool
same_codes [] [] = true
same_codes (c ∷ cs) (d ∷ ds) = c == d && same_codes cs ds
same_codes [] (d ∷ ds) = false
same_codes (c ∷ cs) [] = false

-- `path.startswith(prefix)`
unfoldable pub starts_with : List ℕ → List ℕ → Bool
starts_with [] path = true
starts_with (c ∷ prefix) [] = false
starts_with (c ∷ prefix) (d ∷ path) = c == d && starts_with prefix path

-- relative, not `.`, without `..`, and written as `str` writes it
unfoldable pub is_canonical : List ℕ → Bool
unfolding posix_str posix_root posix_names same_codes any
is_canonical path = not (
    not (is_nil (posix_root path))
    || (is_dot path
        || (any is_dot_dot (posix_names path) || not (same_codes (posix_str path) path))))

-- absolute, without `..`, and written as `str` writes it
unfoldable pub is_canonical_absolute : List ℕ → Bool
unfolding posix_str posix_root posix_names same_codes any
is_canonical_absolute path = not (
    is_nil (posix_root path)
    || (any is_dot_dot (posix_names path) || not (same_codes (posix_str path) path)))

-- `.git`, or something below it
unfoldable pub is_git_path : List ℕ → Bool
unfolding same_codes starts_with codes
is_git_path path = same_codes path (codes ".git") || starts_with (codes ".git/") path
