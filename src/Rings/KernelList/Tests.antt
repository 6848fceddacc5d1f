-- ===== src/Rings/KernelList/Tests.antt =====
-- A list over an allocator that only counts up, and the theorems of the parent at it.
use arcane_os.Prelude.{ℕ, ◌+◌, ◌≡◌, refl, some, [], ◌∷◌, arith}
use arcane_os.Prelude.State.{State}
use arcane_os.Rings.Seg.{Seg, NotIn, Distinct}
use arcane_os.Rings.KernelList.{
  Lists, Holds, list_create, list_insert, list_create-Holds, list_insert-Holds,
}

abbrev next_block : ℕ → State ℕ ℕ
next_block size s = some (s, s + 32)

-- The list at 32 with its sentinel at 64.
abbrev empty_list : Lists ℕ
empty_list = record {
  links = record { next = λ a. 64; prev = λ a. 64 };
  data_of = λ a. 0;
  head = λ a. 64;
  count = λ a. 0;
  rest = 96;
}

empty-Holds : Holds empty_list 32 []
unfolding Seg NotIn Distinct
empty-Holds = record {
  ring = record { around = (refl, refl); distinct = (tt, tt) };
  counted = refl;
}

apart : NotIn 96 (64 ∷ [])
unfolding NotIn
apart = (omega arith, tt)

list_insert-Holds_example :
    (t : Lists ℕ) × (list_insert next_block 32 7 empty_list ≡ some (96, t))
    × Holds t 32 (96 ∷ [])
    × (t.data_of 96 ≡ 7)
    × (t.head ≡ empty_list.head)
    × (t.rest ≡ 128)
list_insert-Holds_example =
    list_insert-Holds next_block 32 7 96 [] empty_list 128 empty-Holds (omega arith) refl apart

list_create-Holds_example :
    (t : Lists ℕ) × (list_create next_block empty_list ≡ some (96, t))
    × Holds t 96 []
    × (t.rest ≡ 160)
list_create-Holds_example = list_create-Holds next_block 96 128 empty_list 128 160 refl refl
