-- ===== src/Guard.antt =====
-- The test for recursive deletions of the command filter (src-tauri/src/api_server/guard.rs). The
-- words are those of the command in lower case, without quotes and with separators set apart.
pub mod Laws
mod Examples
use hlem_ssh.Prelude.{
  ℕ, Bool, true, false, not, ◌&&◌, ◌||◌, List, [], ◌∷◌, ◌++◌, ◌==◌, any, drop, if◌then◌else◌,
}
use hlem_ssh.Prelude.Text.{codes}
use hlem_ssh.Prelude.Chars.{Text, is_empty, same_text, contains_text, starts_with}
use hlem_ssh.Config.Path.{normalize_delete_target}

abbrev dangerous_targets : List Text
dangerous_targets =
    codes "/"
    ∷ codes "/*"
    ∷ codes "/."
    ∷ codes "/.."
    ∷ codes "~"
    ∷ codes "~/"
    ∷ codes "$home"
    ∷ codes "${home}"
    ∷ codes "/home"
    ∷ codes "/home/*"
    ∷ codes "/root"
    ∷ codes "/root/*"
    ∷ codes "/usr"
    ∷ codes "/usr/*"
    ∷ codes "/etc"
    ∷ codes "/etc/*"
    ∷ codes "/var"
    ∷ codes "/var/*"
    ∷ codes "/boot"
    ∷ codes "/boot/*"
    ∷ codes "/sys"
    ∷ codes "/sys/*"
    ∷ codes "/proc"
    ∷ codes "/proc/*"
    ∷ codes "/dev"
    ∷ codes "/dev/*"
    ∷ codes "/run"
    ∷ codes "/run/*"
    ∷ codes "/lib"
    ∷ codes "/lib/*"
    ∷ codes "/lib64"
    ∷ codes "/lib64/*"
    ∷ codes "/opt"
    ∷ codes "/opt/*"
    ∷ codes "/sbin"
    ∷ codes "/sbin/*"
    ∷ codes "/bin"
    ∷ codes "/bin/*"
    ∷ []

-- The characters that `trim_matches` takes off.
abbrev is_bracket : ℕ → Bool
is_bracket c = any (λ d. d == c) (codes "(){};")

unfoldable pub strip_start : Text → Text
strip_start [] = []
strip_start (c ∷ text) = let rest = strip_start text in if is_bracket c then rest else c ∷ text

unfoldable pub strip_end : Text → Text
strip_end [] = []
strip_end (c ∷ text) =
    let rest = strip_end text in if is_bracket c && is_empty rest then [] else c ∷ rest

unfoldable pub is_dangerous_recursive_delete_target : Text → Bool
is_dangerous_recursive_delete_target given =
    let value = strip_end (strip_start given) in
    if starts_with (codes "~/..") value
      || starts_with (codes "$home/..") value
      || starts_with (codes "${home}/..") value
    then true
    else any
        (λ dangerous. same_text (normalize_delete_target value) (normalize_delete_target dangerous))
        dangerous_targets

abbrev pub is_separator : Text → Bool
is_separator arg =
    contains_text
      (codes ";"
        ∷ codes "&&"
        ∷ codes "||"
        ∷ codes "|"
        ∷ codes "("
        ∷ codes ")"
        ∷ codes "{"
        ∷ codes "}"
        ∷ [])
      arg

abbrev pub has_char : ℕ → Text → Bool
has_char c text = any (λ d. d == c) text

abbrev pub has_recursive_letter : Text → Bool
has_recursive_letter arg = has_char 0x72 (drop 1 arg) || has_char 0x52 (drop 1 arg)

-- What the loop over the arguments of one `rm` carries.
pub record Scan : Type 0 where
  pub recursive : Bool
  pub parse_options : Bool
  pub targets : List Text

-- The loop's body, for an argument that is no separator.
unfoldable pub scan_arg : Scan → Text → Scan
scan_arg s arg =
    if same_text arg (codes "--")
    then record s { parse_options = false }
    else if s.parse_options && starts_with (codes "--") arg
    then record s {
      recursive = s.recursive || contains_text (codes "--recursive" ∷ codes "--dir" ∷ []) arg;
    }
    else if s.parse_options && starts_with (codes "-") arg
    then record s { recursive = s.recursive || has_recursive_letter arg }
    else record s { targets = s.targets ++ arg ∷ [] }

unfoldable pub scan_args : Scan → List Text → Scan
scan_args s [] = s
scan_args s (arg ∷ rest) =
    let more = scan_args (scan_arg s arg) rest in if is_separator arg then s else more

abbrev pub fresh_scan : Scan
fresh_scan = record { recursive = false; parse_options = true; targets = [] }

abbrev pub is_caught : Scan → Bool
is_caught s = s.recursive && any is_dangerous_recursive_delete_target s.targets

-- The loop over the words, from one of them on.
unfoldable pub has_dangerous_recursive_rm : List Text → Bool
has_dangerous_recursive_rm [] = false
has_dangerous_recursive_rm (token ∷ parts) =
    let later = has_dangerous_recursive_rm parts in
    if not (same_text token (codes "rm"))
    then later
    else if is_caught (scan_args fresh_scan parts)
    then true
    else later
