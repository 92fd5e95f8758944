-- ===== src/Links.antt =====
-- The doubly linked circular lists of practica/zeos/list.c and include/list.h. A `struct list_head`
-- is an address; its two fields are kept in two maps. Address 0 is never mapped, so a read or a
-- write through a null pointer is a fault, the `none` of a command.
pub mod Chain
pub mod Queue
pub mod Insert
pub mod Remove
pub mod Walk
mod Tests
use soa_ze_os.Prelude.{ℕ, zero, suc, Bool, Option, none, some, List, [], ◌∷◌, ◌==◌, if◌then◌else◌}

abbrev pub Addr : Type 0
Addr = ℕ

abbrev pub null : Addr
null = 0

pub record Links : Type 0 where
  pub next : Addr → Addr
  pub prev : Addr → Addr

abbrev pub Cmd : Type 0 → Type 0
Cmd A = Links → Option (A × Links)

abbrev pub pure : {A : Type 0} → A → Cmd A
pure a h = some (a, h)

abbrev pub and_then : {A B : Type 0} → Option (A × Links) → (A → Cmd B) → Option (B × Links)
and_then none f = none
and_then (some (a, h)) f = f a h

infixl 5 ◌>>=◌ ◌>>◌
abbrev pub ◌>>=◌ : {A B : Type 0} → Cmd A → (A → Cmd B) → Cmd B
◌>>=◌ m f h = and_then (m h) f

abbrev pub ◌>>◌ : {B : Type 0} → Cmd (Unit {0}) → Cmd B → Cmd B
m >> k = m >>= λ _. k

unfoldable pub update : (Addr → Addr) → Addr → Addr → Addr → Addr
update f a v b = if b == a then v else f b

-- `p->next` and `p->prev`, read and written.
unfoldable pub get_next : Addr → Cmd Addr
get_next p h = if p == null then none else some (h.next p, h)

unfoldable pub get_prev : Addr → Cmd Addr
get_prev p h = if p == null then none else some (h.prev p, h)

unfoldable pub set_next : Addr → Addr → Cmd (Unit {0})
set_next p q h = if p == null then none else some (tt, record h { next = update h.next p q })

unfoldable pub set_prev : Addr → Addr → Cmd (Unit {0})
set_prev p q h = if p == null then none else some (tt, record h { prev = update h.prev p q })

unfoldable pub init_list_head : Addr → Cmd (Unit {0})
unfolding set_next set_prev
init_list_head list = do set_next list list; set_prev list list

-- `__list_add`
unfoldable pub list_add_between : (new prev next : Addr) → Cmd (Unit {0})
unfolding set_next set_prev
list_add_between new prev next = do
  set_prev next new
  set_next new next
  set_prev new prev
  set_next prev new

unfoldable pub list_add : (new head : Addr) → Cmd (Unit {0})
unfolding list_add_between get_next
list_add new head = do list_add_between new head (← get_next head)

unfoldable pub list_add_tail : (new head : Addr) → Cmd (Unit {0})
unfolding list_add_between get_prev
list_add_tail new head = do list_add_between new (← get_prev head) head

-- `__list_del`
unfoldable pub list_del_between : (prev next : Addr) → Cmd (Unit {0})
unfolding set_next set_prev
list_del_between prev next = do set_prev next prev; set_next prev next

unfoldable pub list_del : (entry : Addr) → Cmd (Unit {0})
unfolding list_del_between get_next get_prev set_next set_prev
list_del entry = do
  p ← get_prev entry
  n ← get_next entry
  list_del_between p n
  set_next entry null
  set_prev entry null

unfoldable pub list_is_last : (list head : Addr) → Cmd Bool
unfolding get_next
list_is_last list head = do pure ((← get_next list) == head)

unfoldable pub list_empty : (head : Addr) → Cmd Bool
unfolding get_next
list_empty head = do pure ((← get_next head) == head)

unfoldable pub list_first : (head : Addr) → Cmd Addr
unfolding get_next
list_first head = get_next head

-- The cursors that `list_for_each` visits from `pos` on; out of fuel is a fault too.
unfoldable pub list_for_each_from : ℕ → (pos head : Addr) → Cmd (List Addr)
unfolding get_next
list_for_each_from zero pos head = λ _. none
list_for_each_from (suc fuel) pos head =
    if pos == head
    then pure []
    else do n ← get_next pos; rest ← list_for_each_from fuel n head; pure (pos ∷ rest)

unfoldable pub list_for_each : ℕ → (head : Addr) → Cmd (List Addr)
unfolding list_for_each_from get_next
list_for_each fuel head = do list_for_each_from fuel (← get_next head) head
