-- ===== src/Software/Process/Kinds.antt =====
-- Which bits the type of a thread can have.
use zerosum.Base.{
  ℕ, ◌≡◌, Bool, true, false, ◌&&◌, ◌||◌, List, [], ◌∷◌, some, arith, ◌==◌, bit_or, not, inl, inr,
  Option-cases,
}
use zerosum.Software.Lwp
use zerosum.Software.Lwp.{ThreadType, Lwp, main, zero_sum, open_mp, other, update, bits, has_bit}
use zerosum.Software.Process.{Process, new, add, add_thread}
use zerosum.StdMap.{nat_ord, Map, find, insert, find-insert, find-assign}
use zerosum.Utils.Running.{Fields}

-- The arguments of one call of `add`.
pub record Call : Type 0 where
  pub tid : ℕ
  pub allowed : List ℕ
  pub fields : Fields
  pub step : ℕ
  pub type : ThreadType

unfoldable pub add_all : Bool → List Call → Process → Process
add_all add_new [] p = p
add_all add_new (c ∷ cs) p =
    add_all add_new cs (add add_new c.tid c.allowed c.fields c.step c.type p)

abbrev pub is_main : ThreadType → Bool
is_main main = true
is_main _ = false

abbrev pub no_main : List Call → Bool
no_main [] = true
no_main (c ∷ cs) = not (is_main c.type) && no_main cs

abbrev is_kind : ℕ → Bool
is_kind n = (n == 8) || (n == 10) || (n == 12) || (n == 14)

-- Every thread has the other bit and none has the main bit.
abbrev Unnamed : Map ℕ Lwp → Type 0
Unnamed threads = (t : ℕ) (lwp : Lwp) → find t threads ≡ some lwp → is_kind lwp.type_bits ≡ true

kind-bit_or :
    (n : ℕ) (type : ThreadType)
    → is_kind n ≡ true
    → is_main type ≡ false
    → is_kind (bit_or n (bits type)) ≡ true
kind-bit_or n main k e = ground arith
kind-bit_or n zero_sum k e = ground arith
kind-bit_or n open_mp k e = ground arith
kind-bit_or n other k e = ground arith

add_thread-Unnamed :
    (c : Call) (threads : Map ℕ Lwp)
    → is_main c.type ≡ false
    → Unnamed threads
    → Unnamed (add_thread c.tid c.allowed c.fields c.step c.type threads)
unfolding add_thread Lwp.new update
add_thread-Unnamed c threads e u t lwp f = elim (Option-cases (find c.tid threads)) [
  | inl n ↦ ground (
    arith,
    u t lwp,
    nat_ord.cmp_eq t c.tid,
    find-insert c.tid t (Lwp.new c.tid c.allowed c.fields (bits c.type) other) threads,
  )
  | inr (old, s) ↦ ground (
    arith,
    u t lwp,
    u c.tid old s,
    kind-bit_or old.type_bits c.type,
    nat_ord.cmp_eq t c.tid,
    find-assign c.tid t (update c.allowed c.fields c.type c.step old) threads,
  )
]

pub add_all-Unnamed :
    (add_new : Bool) (calls : List Call) (p : Process)
    → no_main calls ≡ true
    → Unnamed p.threads
    → Unnamed (add_all add_new calls p).threads
unfolding add_all add
add_all-Unnamed add_new [] p e u t lwp f = u t lwp f
add_all-Unnamed add_new (c ∷ cs) p e u t lwp f =
    add_all-Unnamed add_new cs _ (ground arith) (add_thread-Unnamed c p.threads (ground arith) u) t
      lwp f

new-Unnamed :
    (tid id rank size : ℕ) (fields : Fields) (allowed : List ℕ)
    → Unnamed (new tid id rank size fields allowed).threads
unfolding new Lwp.new find insert
new-Unnamed tid id rank size fields allowed t lwp f = ground (arith, nat_ord.cmp_eq t id)

kind_bits : (n : ℕ) → is_kind n ≡ true → (has_bit n main ≡ false) × (has_bit n other ≡ true)
kind_bits n k = ground arith

-- After the constructor of a process and any history of calls of `add` that do not ask for the type
-- of the main thread, no thread of the process has the bit of the main thread, not even the one that
-- the constructor made, and every thread has the bit of the other threads.
pub main_never_named :
    (add_new : Bool) (calls : List Call) (tid id rank size : ℕ) (fields : Fields) (allowed : List ℕ)
    → no_main calls ≡ true
    → (t : ℕ) (lwp : Lwp)
    → find t (add_all add_new calls (new tid id rank size fields allowed)).threads ≡ some lwp
    → (has_bit lwp.type_bits main ≡ false) × (has_bit lwp.type_bits other ≡ true)
main_never_named add_new calls tid id rank size fields allowed e t lwp f = kind_bits lwp.type_bits (
    add_all-Unnamed add_new calls (new tid id rank size fields allowed) e
      (new-Unnamed tid id rank size fields allowed) t lwp f)
