-- ===== src/Interrupts/Dispatch.antt =====
-- Which handler is called, and how an interrupt is acknowledged.
use pingu_os.Common.{
  ℕ, ◌<◌, ◌≡◌, ◌≢◌, refl, ◌∙◌, sym, ap, arith, Bool, true, false, Bool-cases, inl, inr, Option,
  none, some, List, [], ◌∷◌, ◌++◌, append-nil, ◌&&◌, ◌==◌, ==-refl, leb, ltb, if◌then◌else◌, length,
  get_or, set, get_or-set_self, get_or-set_ne, length-set,
}
use pingu_os.Interrupts.{
  InterruptManager, register_handler, remove_handler, call_handler, switch_task, handler, send_eoi,
  Active, activate, deactivate, pic_master_cmd, pic_slave_cmd,
}
use pingu_os.Multitask.{scheduler}

-- The stack pointer behind the handler, if there is one.
abbrev pub called : (ℕ → ℕ → ℕ) → Option ℕ → ℕ → ℕ
called handle none esp = esp
called handle (some h) esp = handle h esp

-- A call of a handler moves nothing but the stack pointer and what has been printed.
data Calls (im : InterruptManager) (esp : ℕ) : ℕ × InterruptManager → Type 0 where
  calls : {lines : List (List ℕ)} → Calls im esp (esp, record im { printed = lines })

call_handler-Calls :
    (handle : ℕ → ℕ → ℕ) (im : InterruptManager) (o : Option ℕ) (number esp : ℕ)
    → Calls im (called handle o esp) (call_handler handle im o number esp)
unfolding call_handler
call_handler-Calls handle im (some h) number esp = calls
call_handler-Calls handle im none number esp = elim (Bool-cases (number == 0x20)) [
  | inl timer ↦ rw timer calls
  | inr other ↦ rw other calls
]

-- The controllers that have to hear of an interrupt: the master for 0x20 to 0x2F, and the slave
-- before it for the upper eight.
abbrev pub acknowledgements : ℕ → List (ℕ × ℕ)
acknowledgements number =
    (if leb 0x28 number && ltb number 0x30 then (pic_slave_cmd, 0x20) ∷ [] else [])
    ++ (if leb 0x20 number && ltb number 0x30 then (pic_master_cmd, 0x20) ∷ [] else [])

send_eoi_lem :
    (number : ℕ) (before : List (ℕ × ℕ))
    → send_eoi number before ≡ before ++ acknowledgements number
unfolding send_eoi
send_eoi_lem number before = elim (Bool-cases (ltb number 0x30)) [
  | inl low ↦ elim (Bool-cases (leb 0x28 number)) [
    | inl slave ↦ let master : leb 0x20 number ≡ true = ground arith in rw (low, slave, master) refl
    | inr upper ↦ elim (Bool-cases (leb 0x20 number)) [
      | inl master ↦ rw (low, upper, master) refl
      | inr neither ↦ rw (low, upper, neither) (sym (append-nil before))
    ]
  ]
  | inr high ↦ rw (high, never (leb 0x20 number), never (leb 0x28 number)) (sym (append-nil before))
]
  where
    never : (b : Bool) → (b && false) ≡ false
    never true = refl
    never false = refl

-- What an interrupt comes to: the stack pointer to go on with.
abbrev pub outcome : (ℕ → ℕ → ℕ) → InterruptManager → ℕ → ℕ → ℕ
outcome handle im number esp =
    let behind = called handle (get_or im.handlers number none) esp in
    if number == 0x20 then (scheduler im.task_manager im.tasks behind).0 else behind

switched :
    (im : InterruptManager) (number esp : ℕ) {r : ℕ × InterruptManager}
    → Calls im esp r
    → ((switch_task r.1 number r.0).0
        ≡ (if number == 0x20 then (scheduler im.task_manager im.tasks esp).0 else esp))
      × ((switch_task r.1 number r.0).1.writes ≡ im.writes)
      × ((switch_task r.1 number r.0).1.handlers ≡ im.handlers)
unfolding switch_task
switched im number esp calls = elim (Bool-cases (number == 0x20)) [
  | inl timer ↦ rw timer (refl, refl, refl)
  | inr other ↦ rw other (refl, refl, refl)
]

-- An interrupt calls the handler of its number on the stack pointer, if one is registered; the
-- timer, 0x20, then switches to the task that the scheduler chooses. Whether there is a handler or
-- not, an interrupt from 0x20 to 0x2F is acknowledged once at the master controller, from 0x28 on
-- once at the slave before that, and no other is. The table of handlers stays.
pub handler-dispatch :
    (handle : ℕ → ℕ → ℕ) (im : InterruptManager) (number esp : ℕ)
    → let (esp', im') = handler handle im number esp in
      (esp' ≡ outcome handle im number esp)
      × (im'.writes ≡ im.writes ++ acknowledgements number)
      × (im'.handlers ≡ im.handlers)
unfolding handler
handler-dispatch handle im number esp =
    let o = get_or im.handlers number none in
    let s = switched im number (called handle o esp) (call_handler-Calls handle im o number esp) in
    (s.0, ap (send_eoi number) s.1 ∙ send_eoi_lem number im.writes, s.2)

unequal : (a b : ℕ) → a ≢ b → (a == b) ≡ false
unequal a b other = ground arith

-- A handler that is registered is called for its number, other than the timer's, and every other
-- number comes to what it came to before.
handler-register_handler :
    (handle : ℕ → ℕ → ℕ) (im : InterruptManager) (number this esp : ℕ)
    → number < length im.handlers
    → number ≢ 0x20
    → ((handler handle (register_handler im number this) number esp).0 ≡ handle this esp)
      × ((other : ℕ)
          → number ≢ other
          → (handler handle (register_handler im number this) other esp).0
            ≡ (handler handle im other esp).0)
unfolding register_handler
handler-register_handler handle im number this esp there not_timer =
    let im' = record im { handlers = set im.handlers number (some this) } in
    (
      (handler-dispatch handle im' number esp).0
          ∙ rw
              (
                unequal number 0x20 not_timer,
                get_or-set_self im.handlers number (some this) none there,
              )
              refl,
      λ other apart.
          (handler-dispatch handle im' other esp).0
          ∙ ap
              (λ o.
                if other == 0x20
                then (scheduler im.task_manager im.tasks (called handle o esp)).0
                else called handle o esp)
              (get_or-set_ne im.handlers number other (some this) none apart)
          ∙ sym (handler-dispatch handle im other esp).0,
    )

-- The destructor of a handler takes it out of the table, unless another has taken its place
-- meanwhile: then the table stays.
remove_handler-register_handler :
    (im : InterruptManager) (number this other : ℕ)
    → number < length im.handlers
    → other ≢ this
    → (get_or (remove_handler (register_handler im number this) number this).handlers number none
        ≡ none)
      × (remove_handler (register_handler im number other) number this
          ≡ register_handler im number other)
unfolding remove_handler register_handler
remove_handler-register_handler im number this other there apart =
    let slot = set im.handlers number (some this) in
    let mine = get_or-set_self im.handlers number (some this) none there in
    let theirs = get_or-set_self im.handlers number (some other) none there in
    (
      rw (mine, ==-refl this)
          (get_or-set_self slot number none none
            (omega (arith, there, length-set im.handlers number (some this)))),
      rw (theirs, unequal other this apart) refl,
    )

-- Whatever was active before, `activate` makes a manager the active one and lets interrupts
-- through; that manager can then be deactivated, which stops them, and no other can.
deactivate-activate :
    (a : Active) (this other : ℕ)
    → this ≢ other
    → (activate a this ≡ record { manager = some this; enabled = true })
      × (deactivate (activate a this) this ≡ record { manager = none; enabled = false })
      × (deactivate (activate a this) other ≡ activate a this)
unfolding deactivate activate
deactivate-activate a this other apart =
    (refl, rw (==-refl this) refl, rw (unequal this other apart) refl)
