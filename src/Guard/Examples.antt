-- ===== src/Guard/Examples.antt =====
-- The filter's theorem at a command.
use hlem_ssh.Prelude.{◌≡◌, refl, true, List, [], ◌∷◌, ◌++◌}
use hlem_ssh.Prelude.Text.{codes}
use hlem_ssh.Prelude.Chars.{Text, split, join}
use hlem_ssh.Guard.{
  strip_start, strip_end, is_dangerous_recursive_delete_target, has_dangerous_recursive_rm,
}
use hlem_ssh.Guard.Laws.{has_dangerous_recursive_rm-caught}
use hlem_ssh.Config.Path.{normalize_delete_target, resolve, step_segment, absolute, relative}

-- `sudo rm /tmp/../etc -fr`
abbrev args : List Text
args = codes "/tmp/../etc" ∷ codes "-fr" ∷ []

aims_at_etc : is_dangerous_recursive_delete_target (codes "/tmp/../etc") ≡ true
unfolding is_dangerous_recursive_delete_target strip_start strip_end normalize_delete_target resolve
    step_segment absolute relative split join
aims_at_etc = refl

has_dangerous_recursive_rm-caught_example :
    has_dangerous_recursive_rm
      ((codes "sudo" ∷ []) ++ codes "rm" ∷ args ++ (codes ";" ∷ codes "ls" ∷ []))
    ≡ true
has_dangerous_recursive_rm-caught_example =
    has_dangerous_recursive_rm-caught (codes "sudo" ∷ []) args (codes ";" ∷ codes "ls" ∷ [])
      ((refl, refl), ((refl, refl), tt)) refl (rw aims_at_etc refl)
