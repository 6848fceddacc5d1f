-- ===== src/Fs/Vfs/Find/Text.antt =====
-- The text of a path that vfs_find is given, in memory.
use mathlib.Core.Path.{subst}
use arcane_os.Prelude.{
  ℕ, ◌+◌, ◌≤◌, ◌<◌, ◌≡◌, ◌∙◌, ap, arith, List, [], ◌∷◌, ◌++◌, length, length-append, write,
  write-ne, Cells,
}
use arcane_os.Strings.CString.{IsString}
use arcane_os.Strings.CString.Span.{IsString-rebase}
use arcane_os.Strings.CString.Copies.{IsString-frame}
use arcane_os.Fs.Vfs.Paths.{join, IsPath, path_size, path_size-cons, IsString-behind}

abbrev pub colon_byte : ℕ
colon_byte = 58

-- The text of a path: a mount, ":", one byte that is not looked at, and names.
abbrev pub path_text : (mount : List ℕ) (x : ℕ) → List (List ℕ) → List ℕ
path_text mount x cs = mount ++ colon_byte ∷ x ∷ join cs

pub length-path_text :
    (mount : List ℕ) (x : ℕ) (cs : List (List ℕ))
    → length (path_text mount x cs) ≡ length mount + (length (join cs) + 2)
length-path_text mount x cs = omega (arith, length-append mount (colon_byte ∷ x ∷ join cs))

IsPath-join :
    (m : Cells ℕ) (b : ℕ) (cs : List (List ℕ))
    → IsString m b 0 (join cs)
    → m (b + (length (join cs) + 1)) ≡ 0
    → IsPath m b cs
IsPath-join m b [] str end = ap m (omega arith) ∙ str
IsPath-join m b (c ∷ cs) str end = (str, end)

-- What is behind the mount once it is cut off.
pub IsPath-path_text :
    (m : Cells ℕ) (b : ℕ) (mount : List ℕ) (x : ℕ) (cs : List (List ℕ))
    → IsString m b 0 (path_text mount x cs)
    → m (b + (length (path_text mount x cs) + 1)) ≡ 0
    → IsPath (write m (b + length mount) 0) (b + (length mount + 2)) cs
IsPath-path_text m b mount x cs str end =
    let len = length-path_text mount x cs in
    let (_, _, rest) = IsString-behind m b 0 mount colon_byte (x ∷ join cs) str in
    IsPath-join (write m (b + length mount) 0) (b + (length mount + 2)) cs
      (IsString-frame m (write m (b + length mount) 0) (b + (length mount + 2))
        (b + (length mount + 2)) 0 (join cs) (λ k lo hi. write-ne m 0 (omega arith))
        (IsString-rebase m b (length mount + 2) 0 (join cs)
          (subst (λ k. IsString m b k (join cs)) (omega arith) rest)))
      (write-ne m 0 (omega arith) ∙ ap m (omega (arith, len)) ∙ end)

pub length-names : (cs : List (List ℕ)) → length cs < path_size cs
length-names [] = omega arith
length-names (c ∷ cs) = omega (arith, path_size-cons c cs, length-names cs)

pub path_size-text : (cs : List (List ℕ)) → path_size cs ≤ length (join cs) + 2
path_size-text [] = omega arith
path_size-text (c ∷ cs) = omega arith
