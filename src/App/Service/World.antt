-- ===== src/App/Service/World.antt =====
-- The state that the automation service works on, and the shapes of its code: a call that returns
-- early on an error, and a call whose error is handled or dropped.
use browser_automation_byte.Prelude.{Option, none, some}
use browser_automation_byte.Core.Errors.{GoError}
use browser_automation_byte.Core.Reply.{Reply, ok, fail, fail_with}

-- The store, and all that the clock, the ids, the runtime and the proxy controller keep.
pub record World (S E : Type 0) : Type 0 where
  pub stored : S
  pub env : E

-- A method of the service, and a call of a port.
abbrev pub Act : Type 0 → Type 0 → Type 0 → Type 0
Act S E A = World S E → Reply A × World S E

abbrev pub Call : Type 0 → Type 0 → Type 0 → Type 0
Call S E A = World S E → A × World S E

module _ {S E A B : Type 0} where
  abbrev pub resume : Reply A × World S E → (A → Act S E B) → Reply B × World S E
  resume (ok a, w) f = f a w
  resume (fail e, w) f = (fail e, w)
  resume (fail_with a e, w) f = (fail e, w)

  -- `a, err := m(); if err != nil { return nil, err }`
  infixl 5 ◌>>=◌
  abbrev pub ◌>>=◌ : Act S E A → (A → Act S E B) → Act S E B
  ◌>>=◌ m f w = resume (m w) f

  abbrev pub choose :
      (A × Option GoError) × World S E
      → (A → GoError → Act S E B)
      → (A → Act S E B)
      → Reply B × World S E
  choose ((a, none), w) on_error rest = rest a w
  choose ((a, some e), w) on_error rest = on_error a e w

  -- `a, err := m(); if err != nil { on_error }; rest`
  abbrev pub attempt :
      Call S E (A × Option GoError) → (A → GoError → Act S E B) → (A → Act S E B) → Act S E B
  attempt m on_error rest w = choose (m w) on_error rest

module _ {S E B : Type 0} where
  infixl 5 ◌>>◌
  abbrev pub ◌>>◌ : Act S E (Unit {0}) → Act S E B → Act S E B
  ◌>>◌ m k w = resume (m w) (λ _. k)

  abbrev pub decide :
      Option GoError × World S E → (GoError → Act S E B) → Act S E B → Reply B × World S E
  decide (none, w) on_error rest = rest w
  decide (some e, w) on_error rest = on_error e w

  -- `if err := m(); err != nil { on_error }; rest`
  abbrev pub attempt_only :
      Call S E (Option GoError) → (GoError → Act S E B) → Act S E B → Act S E B
  attempt_only m on_error rest w = decide (m w) on_error rest

module _ {S E : Type 0} where
  -- `if err := m(); err != nil { return nil, err }`
  abbrev pub check : Call S E (Option GoError) → Act S E (Unit {0})
  check m w = decide (m w) (λ e w'. (fail e, w')) (λ w'. (ok tt, w'))

  -- `_ = m()`
  abbrev pub ignore : Call S E (Option GoError) → Act S E (Unit {0})
  ignore m w = (ok tt, (m w).1)

  -- A check that calls nothing.
  abbrev pub require : Option GoError → Act S E (Unit {0})
  require err w = decide (err, w) (λ e w'. (fail e, w')) (λ w'. (ok tt, w'))

module _ {S E A : Type 0} where
  abbrev pub return : A → Act S E A
  return a w = (ok a, w)

  abbrev pub raise : GoError → Act S E A
  raise e w = (fail e, w)

  -- `return a, err`
  abbrev pub raise_with : A → GoError → Act S E A
  raise_with a e w = (fail_with a e, w)

  abbrev pub call_env : (E → A × E) → Call S E A
  call_env f w = let (a, e) = f w.env in (a, record w { env = e })

  abbrev pub call_store : (S → A × S) → Call S E A
  call_store f w = let (a, s) = f w.stored in (a, record w { stored = s })

  abbrev pub read_store : (S → Reply A) → Act S E A
  read_store f w = (f w.stored, w)

  -- A call that returns no error.
  abbrev pub succeed : Call S E A → Act S E A
  succeed m w = let (a, w') = m w in (ok a, w')
