-- ===== src/Events/LogsKept.antt =====
-- What the event log and the machine's store keep of what is published (instance/eventlog and
-- machine/eventstore).
use mathlib.Core.List.{append_assoc, append-nil}
use Prim.Native.String as String
use opdl.Base.{
  inl, inr, ◌≡◌, refl, ap, sym, ◌∙◌, String, false, List, [], ◌∷◌, ◌++◌, none, ◌==◌, string_eq, All,
  Bool-cases, if◌then◌else◌,
}
use opdl.Events.Event.{Outcome, ok, err}
use opdl.Events.Envelope.{Envelope, Json, encode, decode}
use opdl.Events.Logs.{
  Piece, line, torn, Log, landed, Stores, Publication, log_store, append, backend_store,
  publish_to_stores, publish_each,
}

-- The text of a line that is written after what torn writes have left of theirs.
abbrev pub glued : List String → String → String
glued [] text = text
glued (t ∷ ts) text = String.◌++◌ t (glued ts text)

-- What a reader of a file gets, where the torn writes of `left` stand before it: each line that
-- decodes. A write goes to the end of what is there, so that a line ends whatever stands before it.
abbrev pub read_after : Json → (left : List String) → List Piece → List Envelope
read_after j left [] = []
read_after j left (line text ∷ rest) = elim (decode j (glued left text)) [
  | ok e ↦ e ∷ read_after j [] rest
  | err f ↦ read_after j [] rest
]
read_after j left (torn text ∷ rest) = read_after j (left ++ (text ∷ [])) rest

abbrev pub read : Json → List Piece → List Envelope
read j ps = read_after j [] ps

-- What stands in a file after its last newline.
abbrev pub unended : (left : List String) → List Piece → List String
unended left [] = left
unended left (line text ∷ rest) = unended [] rest
unended left (torn text ∷ rest) = unended (left ++ (text ∷ [])) rest

abbrev pub published : List Publication → List Envelope
published [] = []
published (p ∷ ps) = p.envelope ∷ published ps

-- The machine-scoped ones.
abbrev pub machine_scoped : List Envelope → List Envelope
machine_scoped [] = []
machine_scoped (e ∷ es) = if e.scope == "machine" then e ∷ machine_scoped es else machine_scoped es

abbrev pub no_errors : List Publication → List (List String)
no_errors [] = []
no_errors (p ∷ ps) = [] ∷ no_errors ps

-- A publication of an envelope that is encoded and decoded again, with a live context and with writes
-- that succeed.
abbrev pub Succeeds : Json → Publication → Type 0
Succeeds j p =
    ((text : String) × (encode j p.envelope ≡ ok text) × (decode j text ≡ ok p.envelope))
    × (p.ctx_ended ≡ false)
    × (p.log_write ≡ landed)
    × (p.store_write ≡ landed)

module _ (j : Json) where
  read_after-append :
      (left : List String) (xs ys : List Piece)
      → read_after j left (xs ++ ys) ≡ read_after j left xs ++ read_after j (unended left xs) ys
  read_after-append left [] ys = refl
  read_after-append left (line text ∷ xs) ys =
      split (decode j (glued left text)) refl (read_after-append [] xs ys)
    where
      split :
          (d : Outcome Envelope)
          → decode j (glued left text) ≡ d
          → read j (xs ++ ys) ≡ read j xs ++ read_after j (unended [] xs) ys
          → read_after j left (line text ∷ (xs ++ ys))
            ≡ read_after j left (line text ∷ xs) ++ read_after j (unended [] xs) ys
      split (ok e) h rest = rw (h, read_after) (ap (λ t. e ∷ t) rest)
      split (err f) h rest = rw (h, read_after) rest
  read_after-append left (torn text ∷ xs) ys = read_after-append (left ++ (text ∷ [])) xs ys

  unended-line :
      (left : List String) (xs : List Piece) (text : String)
      → unended left (xs ++ (line text ∷ [])) ≡ []
  unended-line left [] text = refl
  unended-line left (line t ∷ xs) text = unended-line [] xs text
  unended-line left (torn t ∷ xs) text = unended-line (left ++ (t ∷ [])) xs text

  -- A file that is open and ends with a newline or is empty.
  abbrev pub IsWhole : Log → Type 0
  IsWhole l = (l.closed ≡ false) × (unended [] l.content ≡ [])

  read-line :
      (e : Envelope) (text : String) (l : Log)
      → decode j text ≡ ok e
      → IsWhole l
      → read j (l.content ++ (line text ∷ [])) ≡ read j l.content ++ (e ∷ [])
  read-line e text l d (unclosed, whole) =
      rw (read_after-append [] l.content (line text ∷ []), whole) (rw (d, read_after) refl)

  log_store-Succeeds :
      (p : Publication) (l : Log)
      → Succeeds j p
      → IsWhole l
      → let s = log_store j p.log_write p.envelope l in
        (s.0 ≡ none) × IsWhole s.1 × (read j s.1.content ≡ read j l.content ++ (p.envelope ∷ []))
  unfolding log_store
  log_store-Succeeds p l ((text, e, d), c, a, b) (unclosed, whole) =
      rw (log_store, unclosed, e, a)
        (
          refl,
          (unclosed, unended-line [] l.content text),
          read-line p.envelope text l d (unclosed, whole),
        )

  backend_store-Succeeds :
      (p : Publication) (l : Log)
      → Succeeds j p
      → IsWhole l
      → let s = backend_store j p.ctx_ended p.store_write p.envelope l in
        (s.0 ≡ none)
        × IsWhole s.1
        × (read j s.1.content ≡ read j l.content ++ machine_scoped (p.envelope ∷ []))
  unfolding backend_store append
  backend_store-Succeeds p l ((text, e, d), c, a, b) (unclosed, whole) =
      elim (Bool-cases (p.envelope.scope == "machine")) [
        | inl m ↦
            rw (backend_store, m, c, e, unclosed, b)
              (
                refl,
                (refl, unended-line [] l.content text),
                read-line p.envelope text l d (unclosed, whole),
              )
        | inr m ↦
            rw (backend_store, m) (refl, (unclosed, whole), sym (append-nil (read j l.content)))
      ]

  scoped-append :
      (e : Envelope) (es : List Envelope)
      → machine_scoped (e ∷ []) ++ machine_scoped es ≡ machine_scoped (e ∷ es)
  scoped-append e es = elim (Bool-cases (e.scope == "machine")) [
    | inl m ↦ rw (m, machine_scoped) refl
    | inr m ↦ rw (m, machine_scoped) refl
  ]

  abbrev pub AreWhole : Stores → Type 0
  AreWhole s = IsWhole s.log × IsWhole s.store

  -- Where both files are open and no torn write is left at their ends, every publication's context is
  -- live and every write succeeds, no publication fails, and what a reader gets of the instance's
  -- event log has grown by all the published envelopes, and of the machine's store by the
  -- machine-scoped ones, in the order of publication. After a torn write at its end, a file's next
  -- line is glued to it, which this does not cover.
  pub publish_each-read :
      (ps : List Publication) (s : Stores)
      → AreWhole s
      → All (Succeeds j) ps
      → let r = publish_each j ps s in
        (r.0 ≡ no_errors ps)
        × (read j r.1.log.content ≡ read j s.log.content ++ published ps)
        × (read j r.1.store.content ≡ read j s.store.content ++ machine_scoped (published ps))
  unfolding publish_each publish_to_stores
  publish_each-read [] s o h =
      (refl, sym (append-nil (read j s.log.content)), sym (append-nil (read j s.store.content)))
  publish_each-read (p ∷ ps) s (lo, so) (h, hs) =
      let (a, la, ra) = log_store-Succeeds p s.log h lo in
      let (b, lb, rb) = backend_store-Succeeds p s.store h so in
      let next = (publish_to_stores j p s).1 in
      let (errors, logged, stored) = publish_each-read ps next (la, lb) hs in
      (
        rw (a, b) (ap (λ es. [] ∷ es) errors),
        logged ∙ rw ra (append_assoc (read j s.log.content) (p.envelope ∷ []) (published ps)),
        stored
            ∙ rw rb (
                append_assoc (read j s.store.content) (machine_scoped (p.envelope ∷ []))
                  (machine_scoped (published ps))
                ∙ ap (λ es. read j s.store.content ++ es)
                    (scoped-append p.envelope (published ps))),
      )
