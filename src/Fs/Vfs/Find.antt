-- ===== src/Fs/Vfs/Find.antt =====
-- vfs_find as a whole.
pub mod Search
pub mod Text
use mathlib.Core.Path.{subst}
use mathlib.Core.Bool.{false}
use mathlib.Core.Option.{some-injective}
use arcane_os.Prelude.{
  ℕ, zero, suc, ◌+◌, ◌≤◌, ◌<◌, ◌≡◌, ◌≢◌, ◌⊎◌, refl, ◌∙◌, sym, ap, arith, inl, inr, Option, some,
  none, List, [], ◌∷◌, ◌++◌, length, length-append, ◌==◌, if◌then◌else◌, write, write-ne, Cells,
}
use arcane_os.Prelude.State.{State, pure, gets, ◌>>=◌, ◌>>◌, >>=-run}
use arcane_os.Rings.Seg.{NotIn}
use arcane_os.Strings.{int_limit, strlen, strcmp, strcpy, strcspn}
use arcane_os.Strings.CString.{IsString, strcmp-Decides, strlen-length}
use arcane_os.Strings.CString.Span.{strcspn-span_to, IsString-rebase}
use arcane_os.Strings.CString.Copies.{strcpy-IsString, IsString-frame}
use arcane_os.Fs.Vfs.{
  Files, on_cells, set_cells, copy_string, find_mount, vfs_find, walk_from, mount_limit, path_limit,
}
use arcane_os.Fs.Vfs.Paths.{
  slash_byte, join, IsNames, IsPath, path_size, path_size-cons, span_to-sep, IsString-cut,
  IsString-behind,
}
use arcane_os.Fs.Vfs.Walk.{Walks, Ready, walk_path-Walks}
use arcane_os.Fs.Vfs.Find.Search.{
  Mounted, FirstMount, FirstMount-some, FirstMount-unique, Mounted-frame, found_mount,
  find_mount-FirstMount,
}
use arcane_os.Fs.Vfs.Find.Text.{
  colon_byte, path_text, length-path_text, IsPath-path_text, length-names, path_size-text,
}

module _ {S : Type 0} (alloc : ℕ → State (Files S) ℕ) (free : ℕ → State (Files S) (Unit {0}))
    (call : (f node name : ℕ) → State (Files S) ℕ) (colon slash temp high : ℕ) where
  -- The state `s` with other bytes at the addresses from `temp` up to `high`.
  abbrev pub Inside : (s : Files S) → Cells ℕ → Type 0
  Inside s cells = (a : ℕ) → (a < temp) ⊎ (high ≤ a) → cells a ≡ s.cells a

  -- What vfs_find gives for the names `cs` at `off` of the copy, from the state `s` on: for the mount
  -- that was found, the result of the run of look-ups from its root; without a mount it reads NULL.
  pub data Finds (s : Files S) (off : ℕ) (cs : List (List ℕ))
      : Option ℕ → Option (ℕ × Files S) → Type 0 where
    no_mount : Finds s off cs none none
    at_mount :
        {v r : ℕ} {u : Files S}
        → Walks alloc free call colon slash temp s off (s.mounts.root v) cs r u
        → Finds s off cs (some v) (some (r, u))

  -- The search of vfs_find and what follows.
  abbrev walk_mount : (mnt_lim vfs : ℕ) → State (Files S) ℕ
  walk_mount mnt_lim vfs =
      if vfs == 0
      then free temp >> pure 0
      else walk_from alloc free call colon slash temp mnt_lim vfs

  abbrev search_mount : (mnt_lim : ℕ) → State (Files S) ℕ
  search_mount mnt_lim s = (find_mount mount_limit s.vfs_head temp >>= walk_mount mnt_lim) s

  -- What follows strcspn, in the state `s` with the memory `m`.
  abbrev on_span : (s : Files S) (m : Cells ℕ) → Option ℕ → Option (ℕ × Files S)
  on_span s m o = elim o [
    | none ↦ none
    | some mnt_lim ↦ search_mount mnt_lim (record s { cells = write m (temp + mnt_lim) 0 })
  ]

  abbrev on_cut : (copy mnt_lim : ℕ) → State (Files S) ℕ
  on_cut copy mnt_lim = do
    set_cells (λ m. write m (copy + mnt_lim) 0)
    head ← gets (λ s. s.vfs_head)
    vfs ← find_mount mount_limit head copy
    if vfs == 0 then free copy >> pure 0 else walk_from alloc free call colon slash copy mnt_lim vfs

  abbrev after_copy : (copy : ℕ) → State (Files S) ℕ
  after_copy copy = on_cells (λ m. strcspn m copy colon) >>= on_cut copy

  vfs_find-on_span :
      (s s1 : Files S) (m : Cells ℕ) (path n : ℕ)
      → strlen s.cells path ≡ some n
      → alloc (n + 1) s ≡ some (temp, s1)
      → strcpy s1.cells temp path ≡ some m
      → vfs_find alloc free call colon slash path s ≡ on_span s1 m (strcspn m temp colon)
  unfolding vfs_find
  vfs_find-on_span s s1 m path n measured made done =
      let text : State (Files S) ℕ = on_cells (λ m. strlen m path) in
      let measures : text s ≡ some (n, s) =
        ap (λ o. elim o [ none ↦ none | some a ↦ some (a, s) ]) measured in
      let copies : copy_string temp path s1 ≡ some (tt, record s1 { cells = m }) =
        >>=-run (on_cells (λ m. strcpy m temp path)) (λ cells. set_cells (λ m. cells)) {s = s1}
          {t = s1} {a = m} (ap (λ o. elim o [ none ↦ none | some a ↦ some (a, s1) ]) done) in
      >>=-run text (λ len. alloc (len + 1) >>= λ copy. copy_string copy path >> after_copy copy)
        {s = s} {t = s} {a = n} measures
      ∙ >>=-run (alloc (n + 1)) (λ copy. copy_string copy path >> after_copy copy) {s = s} {t = s1}
          {a = temp} made
      ∙ >>=-run (copy_string temp path) (λ _. after_copy temp) {s = s1}
          {t = record s1 { cells = m }} {a = tt} copies
      ∙ spans (strcspn m temp colon)
    where
      spans :
          (o : Option ℕ)
          → elim (elim o as (λ _. Option (ℕ × Files S)) [
            | none ↦ none
            | some a ↦ some (a, record s1 { cells = m })
          ])
              as (λ _. Option (ℕ × Files S)) [ none ↦ none | some (a, t) ↦ on_cut temp a t ]
            ≡ on_span s1 m o
      spans none = refl
      spans (some a) = refl

  -- The state in which the copy `m` of the path has its mount cut off.
  abbrev pub named : (s : Files S) (m : Cells ℕ) (mount : List ℕ) → Files S
  named s m mount = record s { cells = write m (temp + length mount) 0 }

  finds :
      (s : Files S) (mnt_lim : ℕ) (cs : List (List ℕ)) (r : Option ℕ)
      (result : Option (ℕ × Files S))
      → find_mount mount_limit s.vfs_head temp s ≡ found_mount r s
      → ((v : ℕ) → r ≡ some v → (v == 0) ≡ false)
      → Ready alloc free call colon slash temp s (mnt_lim + 2) cs
      → length cs < path_limit
      → Finds s (mnt_lim + 2) cs r result
      → search_mount mnt_lim s ≡ result
  unfolding walk_from
  finds s mnt_lim cs r result found real ready few no_mount =
      ap (λ o. elim o [ none ↦ none | some (a, t) ↦ walk_mount mnt_lim a t ]) found
  finds s mnt_lim cs r result found real ready few (at_mount {v = v} run) =
      ap (λ o. elim o [ none ↦ none | some (a, t) ↦ walk_mount mnt_lim a t ]) found
      ∙ rw (real v refl) (walk_path-Walks alloc free call colon slash temp path_limit run ready few)

  module _ (s : Files S) (m : Cells ℕ) (ms : List (ℕ × List ℕ)) (mount : List ℕ) (x : ℕ)
      (cs : List (List ℕ)) (str : IsString m temp 0 (path_text mount x cs))
      (end : m (temp + (length (path_text mount x cs) + 1)) ≡ 0) (inside : Inside s m)
      (mounted : Mounted s.cells s.mounts.next s.vfs_head temp high s.vfs_head ms)
      (plain : NotIn colon_byte mount) (names : IsNames cs)
      (short : length (path_text mount x cs) < int_limit)
      (room : temp + (length (path_text mount x cs) + 2) ≤ high)
      (few : length ms < mount_limit) where
    cut-Inside : Inside s (named s m mount).cells
    cut-Inside a out =
        let len = length-path_text mount x cs in
        write-ne m 0 (ground (arith, out, len, room)) ∙ inside a out

    cut-Ready :
        IsString (named s m mount).cells slash 0 (slash_byte ∷ [])
        → Ready alloc free call colon slash temp (named s m mount) (length mount + 2) cs
    cut-Ready slash_here =
        let len = length-path_text mount x cs in
        let size = path_size-text cs in
        (
          slash_here,
          subst (λ b. IsPath (named s m mount).cells b cs) (omega arith)
              (IsPath-path_text m temp mount x cs str end),
          names,
          omega (arith, len, size, short),
        )

    walks :
        IsString m colon 0 (colon_byte ∷ [])
        → IsString (named s m mount).cells slash 0 (slash_byte ∷ [])
        → (r : Option ℕ) (result : Option (ℕ × Files S)) → FirstMount ms mount r
        → Finds (named s m mount) (length mount + 2) cs r result
        → on_span s m (strcspn m temp colon) ≡ result
    walks sep slash_here r result first run =
        let len = length-path_text mount x cs in
        let cells = (named s m mount).cells in
        let name : IsString cells temp 0 mount =
          IsString-cut m temp 0 (temp + length mount) mount (colon_byte ∷ x ∷ join cs) str
            (omega arith) in
        let (r', first', found) =
          find_mount-FirstMount mount_limit (named s m mount) temp high s.vfs_head ms temp mount
            (Mounted-frame s.cells cells s.mounts.next s.vfs_head temp high s.vfs_head ms cut-Inside
              mounted)
            name few in
        let same : r' ≡ r = FirstMount-unique ms mount r' r first' first in
        let spans : strcspn m temp colon ≡ some (length mount) =
          strcspn-span_to m temp colon (colon_byte ∷ []) (path_text mount x cs) str sep
            (λ e. omega (arith, ap length e, len)) short (omega arith)
          ∙ ap some (span_to-sep colon_byte mount (x ∷ join cs) plain) in
        ap (on_span s m) spans
        ∙ finds (named s m mount) (length mount) cs r result
            (found ∙ ap (λ o. found_mount o (named s m mount)) same)
            (λ v e.
              FirstMount-some s.cells s.mounts.next s.vfs_head temp high s.vfs_head ms mount v
                mounted (subst (FirstMount ms mount) e first))
            (cut-Ready slash_here) (omega (arith, len, path_size-text cs, short, length-names cs))
            run

  -- vfs_find on the text of a mount, ":", one byte and names with "/" between each two: where the
  -- copy of the path leaves the mounts, the separators and the byte behind the copy alone and that
  -- byte is 0, it does the look-ups of the names one after the other, from the root of the first
  -- mount of that name on, and returns what that run gives, the last node or NULL; for a mount that
  -- there is not it reads through NULL.
  pub vfs_find-Finds :
      (s s1 : Files S) (m : Cells ℕ) (path : ℕ) (ms : List (ℕ × List ℕ)) (mount : List ℕ) (x : ℕ)
      (cs : List (List ℕ)) (r : Option ℕ) (result : Option (ℕ × Files S))
      → IsString s.cells path 0 (path_text mount x cs)
      → alloc (length (path_text mount x cs) + 1) s ≡ some (temp, s1)
      → IsString s1.cells path 0 (path_text mount x cs)
      → strcpy s1.cells temp path ≡ some m
      → (temp ≤ path) ⊎ (path + length (path_text mount x cs) < temp)
      → s1.cells (temp + (length (path_text mount x cs) + 1)) ≡ 0
      → IsString s1.cells colon 0 (colon_byte ∷ [])
      → (colon + 1 < temp) ⊎ (high ≤ colon)
      → IsString s1.cells slash 0 (slash_byte ∷ [])
      → (slash + 1 < temp) ⊎ (high ≤ slash)
      → Mounted s1.cells s1.mounts.next s1.vfs_head temp high s1.vfs_head ms
      → NotIn colon_byte mount
      → IsNames cs
      → length (path_text mount x cs) < int_limit
      → temp + (length (path_text mount x cs) + 2) ≤ high
      → length ms < mount_limit
      → FirstMount ms mount r
      → Finds (named s1 m mount) (length mount + 2) cs r result
      → vfs_find alloc free call colon slash path s ≡ result
  vfs_find-Finds s s1 m path ms mount x cs r result text made text1 done apart end sep away sep'
        away' mounted plain names short room few first run =
      let (m0, done0, str0, same0) =
        strcpy-IsString s1.cells temp path (path_text mount x cs) text1 apart short in
      let copy : m0 ≡ m = some-injective _ _ (sym done0 ∙ done) in
      let str = subst (λ n. IsString n temp 0 (path_text mount x cs)) copy str0 in
      let inside : Inside s1 m =
        subst (Inside s1) copy (λ a out. same0 a (ground (arith, out, room))) in
      let len = length-path_text mount x cs in
      let cut : Inside s1 (named s1 m mount).cells =
        cut-Inside s1 m ms mount x cs str
          (subst (λ n. n (temp + (length (path_text mount x cs) + 1)) ≡ 0) copy
            (same0 (temp + (length (path_text mount x cs) + 1)) (ground arith) ∙ end))
          inside mounted plain names short room few in
      let colon_here : IsString m colon 0 (colon_byte ∷ []) =
        IsString-frame s1.cells m colon colon 0 (colon_byte ∷ [])
          (λ k lo hi. inside (colon + k) (ground (arith, away, room))) sep in
      let slash_here : IsString (named s1 m mount).cells slash 0 (slash_byte ∷ []) =
        IsString-frame s1.cells (named s1 m mount).cells slash slash 0 (slash_byte ∷ [])
          (λ k lo hi. cut (slash + k) (ground (arith, away', room))) sep' in
      vfs_find-on_span s s1 m path (length (path_text mount x cs))
        (strlen-length s.cells path (path_text mount x cs) text short) made done
      ∙ walks s1 m ms mount x cs str
          (subst (λ n. n (temp + (length (path_text mount x cs) + 1)) ≡ 0) copy
            (same0 (temp + (length (path_text mount x cs) + 1)) (ground arith) ∙ end))
          inside mounted plain names short room few colon_here slash_here r result first run
