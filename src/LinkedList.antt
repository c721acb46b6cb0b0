-- ===== src/LinkedList.antt =====
-- core/list.c: a doubly linked list of nodes in memory. A pointer is an address, and NULL is 0.
mod Chain
mod Insert
mod Delete
mod Walk
mod Tests
use mosys.Common.{
  ℕ, zero, suc, ◌+◌, Option, none, some, ◌==◌, if◌then◌else◌, Run, done, out_of_fuel, access, ◌>>=◌,
  Heap, write, load,
}

-- `struct ll_node`; the data is a pointer as well.
pub record Node : Type 0 where
  pub node_data : ℕ
  pub next : ℕ
  pub prev : ℕ

abbrev pub Memory : Type 0
Memory = Heap Node

unfoldable pub set_next : Memory → ℕ → ℕ → Run Memory
set_next st a v = load st a >>= λ c. done (write st a (some (record c { next = v })))

unfoldable pub set_prev : Memory → ℕ → ℕ → Run Memory
set_prev st a v = load st a >>= λ c. done (write st a (some (record c { prev = v })))

-- The loop, with fuel.
unfoldable pub list_head : ℕ → Memory → ℕ → Run ℕ
list_head zero st node = out_of_fuel
list_head (suc fuel) st node =
    load st node >>= λ c. if c.prev == 0 then done node else list_head fuel st c.prev

-- `malloc` gives the address `n`, where it leaves `garbage`. The pointer to the new node is returned.
unfoldable pub list_insert_before : ℕ → Node → Memory → ℕ → ℕ → Run (ℕ × Memory)
list_insert_before n garbage st node new_data = do
  st0 ← done (write st n (some (record garbage { node_data = new_data })))
  linked ←
      if node == 0
      then set_prev st0 n 0
      else (load st0 node >>= λ c. set_prev st0 n c.prev >>= λ st1.
          (if c.prev == 0 then done st1 else set_next st1 c.prev n) >>= λ st2. set_prev st2 node n)
  st4 ← set_next linked n node
  done (n, st4)

-- The head of what is left is returned.
unfoldable pub list_delete : Memory → ℕ → ℕ → Run (ℕ × Memory)
list_delete st head n = do
  c ← load st n
  st1 ← if c.prev == 0 then done st else set_next st c.prev c.next
  st2 ← if c.next == 0 then done st1 else set_prev st1 c.next c.prev
  done (if c.prev == 0 then c.next else head, write st2 n none)

-- The loop, with fuel; the head is NULL then.
unfoldable pub list_cleanup : ℕ → Memory → ℕ → Run (ℕ × Memory)
list_cleanup zero st head = out_of_fuel
list_cleanup (suc fuel) st head =
    if head == 0
    then done (0, st)
    else load st head >>= λ c. list_cleanup fuel (write st head none) c.next

unfoldable pub count_loop : ℕ → Memory → ℕ → ℕ → Run ℕ
count_loop zero st head num = out_of_fuel
count_loop (suc fuel) st head num =
    if head == 0 then done num else load st head >>= λ c. count_loop fuel st c.next (num + 1)

abbrev pub list_count : ℕ → Memory → ℕ → Run ℕ
list_count fuel st head = count_loop fuel st head 0

-- The callback may change what it will, but leaves the nodes as they are; it sees a node's address.
unfoldable pub list_foreach {ℓ} : {S : Type ℓ} → ℕ → Memory → ℕ → Option (ℕ → S → S) → S → Run S
list_foreach fuel st head none s = done s
list_foreach zero st head (some callback) s = out_of_fuel
list_foreach (suc fuel) st head (some callback) s =
    if head == 0
    then done s
    else load st head >>= λ c. list_foreach fuel st c.next (some callback) (callback head s)
