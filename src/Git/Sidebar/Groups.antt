-- ===== src/Git/Sidebar/Groups.antt =====
-- The groups that the side bar shows the files in (web/src/features/files/GitFilesSidebar.tsx).
use mathlib.Core.List.Perm
use mathlib.Core.List.{Perm, perm_middle, append_assoc}
use mobilecoding.Base.{
  ◌≡◌, sym, subst, if◌then◌else◌, Bool, true, false, not, ◌&&◌, List, [], ◌∷◌, ◌++◌, ◌==◌, All,
}
use mobilecoding.Git.{GitFileStatus}
use mobilecoding.Git.Sidebar.{staged_files, unstaged_files, untracked_files}

-- What the server documents of an entry: an untracked file is not staged.
abbrev pub IsGitEntry : GitFileStatus → Type 0
IsGitEntry f = (f.staged && f.status == "??") ≡ false

abbrev place : Bool → GitFileStatus → List GitFileStatus → List GitFileStatus
place b f fs = if b then f ∷ fs else fs

-- One more file, by whether it is staged and whether it is untracked.
place-Perm :
    (a b : Bool) (f : GitFileStatus) (s u t fs : List GitFileStatus)
    → (a && b) ≡ false
    → Perm (s ++ (u ++ t)) fs
    → Perm (place a f s ++ (place (not a && not b) f u ++ place b f t)) (f ∷ fs)
place-Perm true true f s u t fs e h = cc
place-Perm true false f s u t fs e h = Perm.cons f h
place-Perm false true f s u t fs e h =
    Perm.trans
      (subst (λ (l : List GitFileStatus). Perm l (f ∷ ((s ++ u) ++ t))) (append_assoc s u (f ∷ t))
        (perm_middle (s ++ u) t))
      (Perm.cons f (subst (λ (l : List GitFileStatus). Perm l fs) (sym (append_assoc s u t)) h))
place-Perm false false f s u t fs e h = Perm.trans (perm_middle s (u ++ t)) (Perm.cons f h)

-- Where no untracked file is staged, the three groups hold each file of the list exactly once.
pub groups-Perm :
    (files : List GitFileStatus)
    → All IsGitEntry files
    → Perm (staged_files files ++ (unstaged_files files ++ untracked_files files)) files
unfolding staged_files unstaged_files untracked_files
groups-Perm [] h = Perm.refl []
groups-Perm (f ∷ fs) (e, h) = place-Perm f.staged (f.status == "??") f _ _ _ fs e (groups-Perm fs h)
