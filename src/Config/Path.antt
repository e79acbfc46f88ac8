-- ===== src/Config/Path.antt =====
-- `normalize_remote_path` of src-tauri/src/config.rs, and the same loop in `normalize_delete_target`
-- of src-tauri/src/api_server/guard.rs.
pub mod Laws
use hlem_ssh.Prelude.{
  ℕ, Bool, List, [], ◌∷◌, ◌++◌, ◌||◌, if◌then◌else◌, get_elem?, Option, none, some, ◌==◌, false,
}
use hlem_ssh.Prelude.Text.{codes}
use hlem_ssh.Prelude.Chars.{Text, is_empty, same_text, trim, split, join}

abbrev pub slash : ℕ
slash = 0x2F

-- `Vec::pop`, its answer not used.
abbrev pub pop {ℓ} : {A : Type ℓ} → List A → List A
pop [] = []
pop (x ∷ []) = []
pop (x ∷ y ∷ xs) = x ∷ pop (y ∷ xs)

-- The `match` in the loop's body.
unfoldable pub step_segment : List Text → Text → List Text
step_segment parts part =
    if is_empty part || same_text part (codes ".")
    then parts
    else if same_text part (codes "..")
    then pop parts
    else parts ++ part ∷ []

unfoldable pub resolve : List Text → List Text → List Text
resolve parts [] = parts
resolve parts (part ∷ rest) = resolve (step_segment parts part) rest

unfoldable pub absolute : List Text → Text
absolute parts = if is_empty parts then codes "/" else slash ∷ join slash parts

unfoldable pub normalize_remote_path : Text → Text
normalize_remote_path path =
    if is_empty (trim path) then [] else absolute (resolve [] (split slash path))

abbrev pub starts_with_slash : Text → Bool
starts_with_slash [] = false
starts_with_slash (c ∷ text) = c == slash

unfoldable pub relative : List Text → Text
relative segments = if is_empty segments then codes "." else join slash segments

unfoldable pub normalize_delete_target : Text → Text
normalize_delete_target value =
    let segments = resolve [] (split slash value) in
    if starts_with_slash value then absolute segments else relative segments
