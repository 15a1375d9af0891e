-- ===== src/App/Service/Ends.antt =====
-- internal/app/session_service.go, task_service.go: what holds where a method returns.
use mathlib.Core.Path.{subst}
use browser_automation_byte.Prelude.{
  ◌≡◌, refl, Bool, true, false, if◌then◌else◌, Option, none, some,
}
use browser_automation_byte.Core.Errors.{GoError}
use browser_automation_byte.Core.Reply.{Reply, ok, fail, fail_with}
use browser_automation_byte.App.Service.World.{World, Act, ◌>>◌, check, resume, decide, choose}

module _ {S E A : Type 0} (Q : A → World S E → Type 0) (R : A → GoError → World S E → Type 0) where
  -- `Q` holds of a value that is returned without an error, and `R` of one that is returned with an
  -- error.
  abbrev pub Ends : Reply A × World S E → Type 0
  Ends (ok a, w) = Q a w
  Ends (fail e, w) = Unit
  Ends (fail_with a e, w) = R a e w

  pub resume-Ends :
      {B : Type 0} (r : Reply B × World S E) (f : B → Act S E A)
      → ((b : B) (w : World S E) → r ≡ (ok b, w) → Ends (f b w))
      → Ends (resume r f)
  resume-Ends (ok b, w) f h = h b w refl
  resume-Ends (fail e, w) f h = tt
  resume-Ends (fail_with b e, w) f h = tt

  pub if-Ends : (b : Bool) (x y : Reply A × World S E) → Ends x → Ends y → Ends (if b then x else y)
  if-Ends true x y h k = h
  if-Ends false x y h k = k

  pub decide-Ends :
      (r : Option GoError × World S E) (on_error : GoError → Act S E A) (rest : Act S E A)
      → ((e : GoError) (w : World S E) → r ≡ (some e, w) → Ends (on_error e w))
      → ((w : World S E) → r ≡ (none, w) → Ends (rest w))
      → Ends (decide r on_error rest)
  decide-Ends (none, w) on_error rest h k = k w refl
  decide-Ends (some e, w) on_error rest h k = h e w refl

  pub choose-Ends :
      {B : Type 0} (r : (B × Option GoError) × World S E) (on_error : B → GoError → Act S E A)
      (rest : B → Act S E A)
      → ((e : GoError) (w : World S E) → Ends (on_error r.0.0 e w))
      → ((w : World S E) → Ends (rest r.0.0 w))
      → Ends (choose r on_error rest)
  choose-Ends ((b, none), w) on_error rest h k = k w
  choose-Ends ((b, some e), w) on_error rest h k = h e w

  pub check-Ends :
      (r : Option GoError × World S E) (rest : Act S E A)
      → ((w : World S E) → r ≡ (none, w) → Ends (rest w))
      → Ends ((check (λ _. r) >> rest) r.1)
  check-Ends (none, w) rest h = h w refl
  check-Ends (some e, w) rest h = tt

  -- A call that is known to return a value without an error.
  pub Ends-ok : {r : Reply A × World S E} {a : A} {w : World S E} → Ends r → r ≡ (ok a, w) → Q a w
  Ends-ok {r} {a} {w} h e = subst Ends e h

module _ {S E A : Type 0} {Q Q' : A → World S E → Type 0}
    {R R' : A → GoError → World S E → Type 0} where
  pub map-Ends :
      (r : Reply A × World S E)
      → ((a : A) (w : World S E) → Q a w → Q' a w)
      → ((a : A) (e : GoError) (w : World S E) → R a e w → R' a e w)
      → Ends Q R r
      → Ends Q' R' r
  map-Ends (ok a, w) f g h = f a w h
  map-Ends (fail e, w) f g h = tt
  map-Ends (fail_with a e, w) f g h = g a e w h
