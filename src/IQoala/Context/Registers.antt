-- ===== src/IQoala/Context/Registers.antt =====
-- Register numbers come in order, and the assertions fail exactly when a file is full.
use qoala_mlir.Common.{
  ℕ, zero, suc, ◌%◌, ◌≤◌, ◌<◌, ◌≡◌, ◌≢◌, refl, ap, ◌∙◌, List, [], ◌∷◌, ◌++◌, Option, none, some,
  ◌>>=◌, length, length-append, arith, ==_refl,
}
use qoala_mlir.IQoala.Program.{RegType, local, r, c, m, q}
use qoala_mlir.IQoala.Context.{
  Context, LocalRoutineRegisters, init, allocate_bounded, allocate_c_registry, allocate_r_registry,
  allocate_m_registry, allocate_q_registry, allocate_register, registers_of, set_registers,
}

-- 0, 1, ..., n - 1.
abbrev pub upto : ℕ → List ℕ
upto zero = []
upto (suc n) = upto n ++ n ∷ []

length-upto : (n : ℕ) → length (upto n) ≡ n
length-upto zero = refl
length-upto (suc n) = length-append (upto n) (n ∷ []) ∙ omega (arith, length-upto n)

-- The file of registers that a call of `allocateRegister` takes from.
abbrev pub file_of : RegType → Option ℕ → Context → List ℕ
file_of local routine ctx = ctx.host_registers
file_of t none ctx = []
file_of r (some k) ctx = (registers_of k ctx.routines_registers).r_registers
file_of c (some k) ctx = (registers_of k ctx.routines_registers).c_registers
file_of m (some k) ctx = (registers_of k ctx.routines_registers).m_registers
file_of q (some k) ctx = (registers_of k ctx.routines_registers).q_registers

-- Q registers are not limited by an assertion; their numbers are distinct up to 256 of them.
abbrev pub limit_of : RegType → ℕ
limit_of local = 64
limit_of q = 256
limit_of _ = 16

-- A host register belongs to no routine, the others belong to one.
abbrev pub IsPlaced : RegType → Option ℕ → Type 0
IsPlaced local none = Unit {0}
IsPlaced local (some k) = ⊥
IsPlaced t none = ⊥
IsPlaced t (some k) = Unit {0}

registers_of-set_registers :
    (k : ℕ) (v : LocalRoutineRegisters) (t : List (ℕ × LocalRoutineRegisters))
    → registers_of k (set_registers k v t) ≡ v
unfolding registers_of set_registers
registers_of-set_registers k v [] = rw ==_refl
registers_of-set_registers k v ((j, w) ∷ t) =
    ground (arith, registers_of-set_registers k v t, ==_refl k)

file_of-init : (t : RegType) (routine : Option ℕ) → file_of t routine init ≡ []
unfolding init registers_of
file_of-init local routine = refl
file_of-init r none = refl
file_of-init r (some k) = refl
file_of-init c none = refl
file_of-init c (some k) = refl
file_of-init m none = refl
file_of-init m (some k) = refl
file_of-init q none = refl
file_of-init q (some k) = refl

allocate_bounded-upto :
    (limit k : ℕ) (l : List ℕ)
    → limit ≤ 256
    → l ≡ upto k
    → k < limit
    → allocate_bounded limit l ≡ some (k, upto (suc k))
unfolding allocate_bounded
allocate_bounded-upto limit k l h e lt =
    let p : length l % 256 ≡ k = rw (e, length-upto k) (omega arith) in rw (p, e) (ground arith)

-- With k registers of a file in use, numbered 0 to k - 1, and room for one more, the next call
-- returns k and leaves the file numbered 0 to k.
allocate_register-upto :
    (t : RegType) (routine : Option ℕ) (ctx : Context) (k : ℕ)
    → IsPlaced t routine
    → file_of t routine ctx ≡ upto k
    → k < limit_of t
    → (ctx' : Context) × (allocate_register t routine ctx ≡ some (k, ctx'))
      × (file_of t routine ctx' ≡ upto (suc k))
unfolding allocate_register allocate_r_registry allocate_c_registry allocate_m_registry
    allocate_q_registry
allocate_register-upto local none ctx k h e lt = (
  record ctx { host_registers = upto (suc k) },
  rw (allocate_bounded-upto 64 k ctx.host_registers (omega arith) e lt) refl,
  refl,
)
allocate_register-upto local (some j) ctx k h e lt = absurd h
allocate_register-upto r (some j) ctx k h e lt =
    let regs = record (registers_of j ctx.routines_registers) { r_registers = upto (suc k) } in
    (
      record ctx { routines_registers = set_registers j regs ctx.routines_registers },
      rw
          (allocate_bounded-upto 16 k (registers_of j ctx.routines_registers).r_registers
            (omega arith) e lt)
          refl,
      ap (λ x. x.r_registers) (registers_of-set_registers j regs ctx.routines_registers),
    )
allocate_register-upto c (some j) ctx k h e lt =
    let regs = record (registers_of j ctx.routines_registers) { c_registers = upto (suc k) } in
    (
      record ctx { routines_registers = set_registers j regs ctx.routines_registers },
      rw
          (allocate_bounded-upto 16 k (registers_of j ctx.routines_registers).c_registers
            (omega arith) e lt)
          refl,
      ap (λ x. x.c_registers) (registers_of-set_registers j regs ctx.routines_registers),
    )
allocate_register-upto m (some j) ctx k h e lt =
    let regs = record (registers_of j ctx.routines_registers) { m_registers = upto (suc k) } in
    (
      record ctx { routines_registers = set_registers j regs ctx.routines_registers },
      rw
          (allocate_bounded-upto 16 k (registers_of j ctx.routines_registers).m_registers
            (omega arith) e lt)
          refl,
      ap (λ x. x.m_registers) (registers_of-set_registers j regs ctx.routines_registers),
    )
allocate_register-upto q (some j) ctx k h e lt =
    let regs = record (registers_of j ctx.routines_registers) { q_registers = upto (suc k) } in
    let p : length (registers_of j ctx.routines_registers).q_registers % 256 ≡ k =
      rw (e, length-upto k) (omega arith) in
    (
      record ctx { routines_registers = set_registers j regs ctx.routines_registers },
      rw (p, e) refl,
      ap (λ x. x.q_registers) (registers_of-set_registers j regs ctx.routines_registers),
    )
allocate_register-upto r none ctx k h e lt = absurd h
allocate_register-upto c none ctx k h e lt = absurd h
allocate_register-upto m none ctx k h e lt = absurd h
allocate_register-upto q none ctx k h e lt = absurd h

allocate_bounded-full :
    (limit : ℕ) (l : List ℕ) → limit < 256 → l ≡ upto limit → allocate_bounded limit l ≡ none
unfolding allocate_bounded
allocate_bounded-full limit l h e =
    let p : length l % 256 ≡ limit = rw (e, length-upto limit) (omega arith) in rw p (ground arith)

-- With all registers of a host, R, C or M file in use the next call fails its assertion.
pub allocate_register-full :
    (t : RegType) (routine : Option ℕ) (ctx : Context)
    → t ≢ q
    → file_of t routine ctx ≡ upto (limit_of t)
    → allocate_register t routine ctx ≡ none
unfolding allocate_register allocate_r_registry allocate_c_registry allocate_m_registry
allocate_register-full local none ctx h e =
    rw (allocate_bounded-full 64 ctx.host_registers (omega arith) e) refl
allocate_register-full local (some j) ctx h e = refl
allocate_register-full r (some j) ctx h e =
    rw
      (allocate_bounded-full 16 (registers_of j ctx.routines_registers).r_registers (omega arith) e)
      refl
allocate_register-full c (some j) ctx h e =
    rw
      (allocate_bounded-full 16 (registers_of j ctx.routines_registers).c_registers (omega arith) e)
      refl
allocate_register-full m (some j) ctx h e =
    rw
      (allocate_bounded-full 16 (registers_of j ctx.routines_registers).m_registers (omega arith) e)
      refl
allocate_register-full q routine ctx h e = absurd (h refl)
allocate_register-full r none ctx h e = refl
allocate_register-full c none ctx h e = refl
allocate_register-full m none ctx h e = refl

-- n calls in a row, and the numbers that they return, the last one first.
pub allocate_many : ℕ → RegType → Option ℕ → Context → Option (List ℕ × Context)
allocate_many zero t routine ctx = some ([], ctx)
allocate_many (suc n) t routine ctx = allocate_many n t routine ctx >>= λ (ns, ctx').
    allocate_register t routine ctx' >>= λ (k, ctx''). some (ns ++ k ∷ [], ctx'')

allocate_many-file :
    (n : ℕ) (t : RegType) (routine : Option ℕ)
    → IsPlaced t routine
    → n ≤ limit_of t
    → (ctx : Context) × (allocate_many n t routine init ≡ some (upto n, ctx))
      × (file_of t routine ctx ≡ upto n)
unfolding allocate_many
allocate_many-file zero t routine h l = (init, refl, file_of-init t routine)
allocate_many-file (suc n) t routine h l =
    let (ctx, p, e) = allocate_many-file n t routine h (omega arith) in
    let (ctx', p', e') = allocate_register-upto t routine ctx n h e (omega arith) in
    (ctx', rw (p, p') refl, e')

-- From the start, up to the limit of a file, n calls return 0 to n - 1 in this order.
pub allocate_many-upto :
    (n : ℕ) (t : RegType) (routine : Option ℕ)
    → IsPlaced t routine
    → n ≤ limit_of t
    → (ctx : Context) × (allocate_many n t routine init ≡ some (upto n, ctx))
allocate_many-upto n t routine h l =
    let (ctx, p, e) = allocate_many-file n t routine h l in (ctx, p)
