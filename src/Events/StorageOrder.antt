-- ===== src/Events/StorageOrder.antt =====
-- In which order the backends are called, whatever runs beside what (storage/publisher.go).
use opdl.Base.{
  ℕ, zero, suc, ◌≡◌, refl, sym, subst, ◌∙◌, ap, inl, inr, Bool-cases, Bool, true, false, List, [],
  ◌∷◌, ◌++◌, Option, none, some, arith, Error,
}
use opdl.Events.Storage.{
  Publication, Call, stores, closes, Publisher, Created, created, no_backends, new_publisher, Move,
  begins, stores_next, returns, begins_close, closes_next, and_error, store_at, return_at, move,
  moves,
}

abbrev has_closed : List Call → Bool
has_closed [] = false
has_closed (stores b e ∷ cs) = has_closed cs
has_closed (closes b ∷ cs) = true

-- Every store was before every close; the last call comes first.
abbrev pub IsOrdered : List Call → Type 0
IsOrdered [] = Unit {0}
IsOrdered (stores b e ∷ cs) = (has_closed cs ≡ false) × IsOrdered cs
IsOrdered (closes b ∷ cs) = IsOrdered cs

abbrev is_idle : List Publication → Bool
is_idle [] = true
is_idle (p ∷ ps) = false

-- While a publication is in flight, or before `Close` has begun, no backend has been closed.
record Holds (p : Publisher) : Type 0 where
  ordered : IsOrdered p.calls
  busy : is_idle p.in_flight ≡ false → has_closed p.calls ≡ false
  unclosed : p.closed ≡ false → has_closed p.calls ≡ false
  waiting : p.closed ≡ false → p.open_backends ≡ []

store_at-Holds :
    (place : ℕ) (outcome : Option Error) (ps : List Publication) (calls : List Call)
    → IsOrdered calls
    → (is_idle ps ≡ false → has_closed calls ≡ false)
    → let (ps', made) = store_at place outcome ps in
      IsOrdered (made ++ calls)
      × (has_closed (made ++ calls) ≡ has_closed calls)
      × (is_idle ps' ≡ is_idle ps)
unfolding store_at
store_at-Holds place outcome [] calls o b = (o, refl, refl)
store_at-Holds zero outcome (p ∷ ps) calls o b = first p.left refl
  where
    first :
        (l : List ℕ)
        → p.left ≡ l
        → let (ps', made) = store_at zero outcome (p ∷ ps) in
          IsOrdered (made ++ calls)
          × (has_closed (made ++ calls) ≡ has_closed calls)
          × (is_idle ps' ≡ false)
    first [] e = rw e (o, refl, refl)
    first (x ∷ xs) e = rw e ((b refl, o), refl, refl)
store_at-Holds (suc place) outcome (p ∷ ps) calls o b =
    let (o', same, _) = store_at-Holds place outcome ps calls o (λ h. b refl) in (o', same, refl)

return_at-idle :
    (place : ℕ) (ps : List Publication) → is_idle (return_at place ps) ≡ false → is_idle ps ≡ false
unfolding return_at
return_at-idle place [] h = h
return_at-idle zero (p ∷ ps) h = refl
return_at-idle (suc place) (p ∷ ps) h = refl

closes_one :
    (p : Publisher) (outcome : Option Error) (b : ℕ) (bs : List ℕ)
    → p.in_flight ≡ []
    → p.open_backends ≡ b ∷ bs
    → move (closes_next outcome) p ≡ record p {
      open_backends = bs;
      close_errs = and_error p.close_errs outcome;
      calls = closes b ∷ p.calls;
    }
unfolding move
closes_one p outcome b bs f o = ground arith

move-Holds : (m : Move) (p : Publisher) → Holds p → Holds (move m p)
unfolding move
move-Holds (begins none) p h = h
move-Holds (begins (some e)) p h = elim (Bool-cases p.closed) [
  | inl c ↦ simp (move, c) h
  | inr c ↦
      simp (move, c)
        (record {
          ordered = h.ordered;
          busy = λ _. h.unclosed c;
          unclosed = λ _. h.unclosed c;
          waiting = λ _. h.waiting c;
        })
]
move-Holds (stores_next place outcome) p h =
    let (o, same, idle) = store_at-Holds place outcome p.in_flight p.calls h.ordered h.busy in
    record {
      ordered = o;
      busy = λ b. same ∙ h.busy (sym idle ∙ b);
      unclosed = λ c. same ∙ h.unclosed c;
      waiting = h.waiting;
    }
move-Holds (returns place) p h = record {
  ordered = h.ordered;
  busy = λ b. h.busy (return_at-idle place p.in_flight b);
  unclosed = h.unclosed;
  waiting = h.waiting;
}
move-Holds begins_close p h = elim (Bool-cases p.closed) [
  | inl c ↦ simp (move, c) h
  | inr c ↦
      simp (move, c)
        (record {
          ordered = h.ordered;
          busy = h.busy;
          unclosed = λ t. absurd (ground arith);
          waiting = λ t. absurd (ground arith);
        })
]
move-Holds (closes_next outcome) p h = split p.in_flight p.open_backends refl refl
  where
    stays : move (closes_next outcome) p ≡ p → Holds (move (closes_next outcome) p)
    stays e = subst Holds (sym e) h

    split :
        (fs : List Publication) (bs : List ℕ)
        → p.in_flight ≡ fs
        → p.open_backends ≡ bs
        → Holds (move (closes_next outcome) p)
    split (q ∷ qs) bs f o = stays (rw f refl)
    split [] [] f o = stays (ground arith)
    split [] (b ∷ bs) f o = subst Holds (sym (closes_one p outcome b bs f o)) (record {
      ordered = h.ordered;
      busy = λ t. absurd (ground arith);
      unclosed = λ t. absurd (ground (arith, h.waiting t, o));
      waiting = λ t. absurd (ground (arith, h.waiting t, o));
    })

moves-Holds : (ms : List Move) (p : Publisher) → Holds p → Holds (moves ms p)
unfolding moves
moves-Holds [] p h = h
moves-Holds (m ∷ ms) p h = moves-Holds ms (move m p) (move-Holds m p h)

abbrev publisher_of : Publisher → Created → Publisher
publisher_of p (created q) = q
publisher_of p no_backends = p

new_publisher-Holds : (n : ℕ) (p : Publisher) → new_publisher n ≡ created p → Holds p
unfolding new_publisher
new_publisher-Holds zero p e = absurd (ground arith)
new_publisher-Holds (suc n) p e =
    subst Holds (ap (publisher_of p) e)
      (record { ordered = tt; busy = λ t. refl; unclosed = λ t. refl; waiting = λ t. refl })

-- From a new publisher on, whatever publications run beside each other and beside Close, and whatever
-- the backends return, no backend is given an envelope after any backend has been closed.
pub moves-IsOrdered :
    (n : ℕ) (p : Publisher) (ms : List Move)
    → new_publisher n ≡ created p
    → IsOrdered (moves ms p).calls
moves-IsOrdered n p ms e = (moves-Holds ms p (new_publisher-Holds n p e)).ordered
