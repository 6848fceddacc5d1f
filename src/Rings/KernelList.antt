-- ===== src/Rings/KernelList.antt =====
-- The lists of kernel/src/lib/list.c: a ring with a sentinel and a count.
mod Tests
use mathlib.Core.Path.{subst}
use arcane_os.Prelude.{
  ℕ, zero, suc, ◌+◌, ◌^◌, ◌≡◌, ◌≢◌, refl, List, [], ◌∷◌, ◌++◌, length, length-append, ◌-◌, ◌<◌, sym,
  ap, ◌∙◌, arith, u64, Cells, write, write_self, write-ne, Option, none, some,
}
use arcane_os.Prelude.State.{State, pure, ◌>>=◌, ◌>>◌, gets, modify, >>=-run}
use arcane_os.Rings.{Links, set_next, set_prev}
use arcane_os.Rings.Seg.{Seg, NotIn, Distinct, Ring}
use arcane_os.Rings.Link.{linked, Ring-append}

-- The fields of `list_item_t` and `list_t`, by the addresses of the objects, and what else there
-- is: `rest` is the state of the heap that `alloc` works on.
pub record Lists (S : Type 0) : Type 0 where
  pub links : Links
  pub data_of : Cells ℕ
  pub head : Cells ℕ
  pub count : Cells ℕ
  pub rest : S

abbrev pub sizeof_list : ℕ
sizeof_list = 16

abbrev pub sizeof_item : ℕ
sizeof_item = 24

-- A list as the client sees it: the ring of its sentinel, and the count.
pub record Holds {S : Type 0} (s : Lists S) (list : ℕ) (items : List ℕ) : Type 0 where
  pub ring : Ring s.links (s.head list) items
  pub counted : s.count list ≡ length items

module _ {S : Type 0} (alloc : ℕ → State S ℕ) where
  abbrev pub alloc_here : ℕ → State (Lists S) ℕ
  alloc_here size s = elim (alloc size s.rest) [
    | none ↦ none
    | some (p, rest) ↦ some (p, record s { rest = rest })
  ]

  pub alloc_here-some :
      (size p : ℕ) (s : Lists S) (rest : S)
      → alloc size s.rest ≡ some (p, rest)
      → alloc_here size s ≡ some (p, record s { rest = rest })
  alloc_here-some size p s rest e = rw (alloc_here, e) refl

  abbrev pub set_links : (Links → Links) → State (Lists S) (Unit {0})
  set_links f = modify (λ s. record s { links = f s.links })

  unfoldable pub list_create : State (Lists S) ℕ
  list_create = do
    list ← alloc_here sizeof_list
    item ← alloc_here sizeof_item
    modify (λ s. record s { head = write s.head list item })
    set_links (λ l. set_next item item (set_prev item item l))
    modify (λ s. record s { count = write s.count list 0 })
    pure list

  -- The links of list_insert: `item->next`, `item->prev`, and then those of its neighbours.
  abbrev pub insert_links : (item head : ℕ) → Links → Links
  insert_links item head l =
      let l1 = set_next item head l in
      let l2 = set_prev item (l1.prev head) l1 in
      let l3 = set_next (l2.prev head) item l2 in set_prev head item l3

  unfoldable pub list_insert : (list value : ℕ) → State (Lists S) ℕ
  list_insert list value = do
    item ← alloc_here sizeof_item
    head ← gets (λ s. s.head list)
    set_links (insert_links item head)
    modify (λ s. record s { data_of = write s.data_of item value })
    modify (λ s. record s { count = write s.count list (u64 (s.count list + 1)) })
    pure item

  -- What list_insert and slab_add_to do to the links, for a new node.
  pub insert_links-linked :
      (item head : ℕ) (l : Links)
      → item ≢ head
      → insert_links item head l ≡ linked (l.prev head) item head l
  insert_links-linked item head l ne =
      let same : write l.prev item (l.prev head) head ≡ l.prev head =
        write-ne l.prev (l.prev head) ne in
      rw same

  -- Where alloc returns an item that is not in the list yet, list_insert returns it and appends it
  -- to the list: the ring and the count are those of the longer list, the item holds the value, and no
  -- list gets another sentinel.
  pub list_insert-Holds :
      (list value item : ℕ) (items : List ℕ) (s : Lists S) (rest : S)
      → Holds s list items
      → length items < 2 ^ 64 - 1
      → alloc sizeof_item s.rest ≡ some (item, rest)
      → NotIn item (s.head list ∷ items)
      → (t : Lists S) × (list_insert list value s ≡ some (item, t))
        × Holds t list (items ++ item ∷ [])
        × (t.data_of item ≡ value)
        × (t.head ≡ s.head)
        × (t.rest ≡ rest)
  unfolding list_insert NotIn
  list_insert-Holds list value item items s rest holds few given away =
      let h = s.head list in
      let longer = Ring-append s.links h item items holds.ring away in
      let same = insert_links-linked item h s.links away.0 in
      (
        record {
          links = insert_links item h s.links;
          data_of = write s.data_of item value;
          head = s.head;
          count = write s.count list (u64 (s.count list + 1));
          rest = rest;
        },
        >>=-run (alloc_here sizeof_item) _ (alloc_here-some sizeof_item item s rest given),
        record {
          ring = subst (λ l. Ring l h (items ++ item ∷ [])) (sym same) longer;
          counted =
              write_self s.count list (u64 (s.count list + 1))
              ∙ omega (arith, holds.counted, length-append items (item ∷ []));
        },
        write_self s.data_of item value,
        refl,
        refl,
      )

  -- Where alloc returns twice, list_create returns an empty list.
  pub list_create-Holds :
      (list item : ℕ) (s : Lists S) (rest rest' : S)
      → alloc sizeof_list s.rest ≡ some (list, rest)
      → alloc sizeof_item rest ≡ some (item, rest')
      → (t : Lists S) × (list_create s ≡ some (list, t)) × Holds t list [] × (t.rest ≡ rest')
  unfolding list_create Seg NotIn Distinct
  list_create-Holds list item s rest rest' first second =
      let links = set_next item item (set_prev item item s.links) in
      let heads = write s.head list item in
      let at_head : heads list ≡ item = write_self s.head list item in
      (
        record {
          links = links;
          data_of = s.data_of;
          head = heads;
          count = write s.count list 0;
          rest = rest';
        },
        >>=-run (alloc_here sizeof_list) _ (alloc_here-some sizeof_list list s rest first)
            ∙ >>=-run (alloc_here sizeof_item) _
                (alloc_here-some sizeof_item item (record s { rest = rest }) rest' second),
        record {
          ring =
              subst (λ h. Ring links h []) (sym at_head)
                (record {
                  around = (write_self s.links.next item item, write_self s.links.prev item item);
                  distinct = (tt, tt);
                });
          counted = write_self s.count list 0;
        },
        refl,
      )
