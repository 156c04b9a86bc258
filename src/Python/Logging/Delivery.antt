-- ===== src/Python/Logging/Delivery.antt =====
-- Which messages Python's logger is given (spawn_log_consumer and emit_line of python/src/lib.rs).
use hdfs_s3_gateway.Prelude.{
  ℕ, zero, suc, ◌+◌, ◌<◌, ◌≤◌, ◌≡◌, refl, sym, ap, ap₂, ◌∙◌, Bool, true, Bool-cases, Option-cases,
  inl, inr, Bytes, ◌=?◌, ◌==◌, if◌then◌else◌, none, some, List, [], ◌∷◌, ◌++◌, append_assoc,
  append-nil, length, arith,
}
use hdfs_s3_gateway.Python.Logging.{
  take_line, drain_lines, trim_end, attach_within, emit_line, emit_lines, consume,
  spawn_log_consumer,
}

-- A character in front of the first of some lines.
unfoldable push_char : ℕ → List Bytes → List Bytes
push_char c [] = (c ∷ []) ∷ []
push_char c (line ∷ lines) = (c ∷ line) ∷ lines

-- The lines of a text, each with the newline that ends it; the last may have none.
unfoldable pub lines : Bytes → List Bytes
unfolding push_char
lines [] = []
lines (c ∷ s) = if c == b'\n' then (c ∷ []) ∷ lines s else push_char c (lines s)

-- What a line is logged as: without its line end, and not at all where nothing else is there.
unfoldable pub messages : List Bytes → List Bytes
messages [] = []
messages (line ∷ rest) =
    let others = messages rest in if trim_end line =? [] then others else trim_end line ∷ others

-- The first line and the lines after it.
lines-take_line :
    (s t line left : Bytes)
    → take_line s ≡ some (line, left)
    → (lines (s ++ t) ≡ line ∷ lines (left ++ t)) × (length left < length s)
unfolding take_line lines push_char
lines-take_line [] t line left h = absurd (ground (arith, h))
lines-take_line (c ∷ s) t line left h = elim (Bool-cases (c == b'\n')) [
  | inl is_end ↦ (ground (arith, is_end, h), ground (arith, is_end, h))
  | inr goes_on ↦ elim (Option-cases (take_line s)) [
    | inl nothing ↦ absurd (ground (arith, goes_on, nothing, h))
    | inr ((first, rest), found) ↦
        let (same, shorter) = lines-take_line s t first rest found in
        (ground (arith, goes_on, found, same, h), ground (arith, goes_on, found, shorter, h))
  ]
]

-- A text without a newline.
lines-none : (s : Bytes) → take_line s ≡ none → lines s ≡ (if s =? [] then [] else s ∷ [])
unfolding take_line lines push_char ◌=?◌
lines-none [] h = refl
lines-none (c ∷ s) h = elim (Bool-cases (c == b'\n')) [
  | inl is_end ↦ absurd (ground (arith, is_end, h))
  | inr goes_on ↦ elim (Option-cases (take_line s)) [
    | inl nothing ↦ ground (arith, goes_on, lines-none s nothing)
    | inr ((first, rest), found) ↦ absurd (ground (arith, goes_on, found, h))
  ]
]

-- The complete lines of what is pending are its first lines, and no newline is left in it.
drain_lines_lem :
    (fuel : ℕ) (s t : Bytes)
    → length s ≤ fuel
    → (lines (s ++ t) ≡ (drain_lines fuel s).0 ++ lines ((drain_lines fuel s).1 ++ t))
      × (take_line (drain_lines fuel s).1 ≡ none)
unfolding drain_lines take_line
drain_lines_lem zero [] t h = (refl, refl)
drain_lines_lem zero (c ∷ s) t h = absurd (omega (arith, h))
drain_lines_lem (suc fuel) s t h = elim (Option-cases (take_line s)) [
  | inl nothing ↦ (ground (arith, nothing), ground (arith, nothing))
  | inr ((line, left), found) ↦
      let (same, shorter) = lines-take_line s t line left found in
      let (rest, clean) = drain_lines_lem fuel left t (omega (arith, shorter, h)) in
      (ground (arith, found, same, rest), ground (arith, found, clean))
]

unfoldable pub concat : List Bytes → Bytes
concat [] = []
concat (s ∷ texts) = s ++ concat texts

-- One of any fifty attempts in a row succeeds.
abbrev pub IsPatient : (ℕ → Bool) → Type 0
IsPatient try_attach = (tick : ℕ) → (wait : ℕ) × (wait < 50) × (try_attach (tick + wait) ≡ true)

attach_within-Attaches :
    (try_attach : ℕ → Bool) (attempts tick wait : ℕ)
    → wait < attempts
    → try_attach (tick + wait) ≡ true
    → (attach_within try_attach attempts tick).1 ≡ true
unfolding attach_within
attach_within-Attaches try_attach zero tick wait h e = absurd (omega (arith, h))
attach_within-Attaches try_attach (suc attempts) tick zero h e = ground (arith, e)
attach_within-Attaches try_attach (suc attempts) tick (suc wait) h e =
    elim (Bool-cases (try_attach tick)) [
      | inl now ↦ ground (arith, now)
      | inr later ↦
          let next =
            attach_within-Attaches try_attach attempts (suc tick) wait (omega (arith, h))
              (ap try_attach (omega arith) ∙ e) in
          ground (arith, later, next)
    ]

messages-append : (ls rest : List Bytes) → messages (ls ++ rest) ≡ messages ls ++ messages rest
unfolding messages
messages-append [] rest = refl
messages-append (l ∷ ls) rest = ground (arith, messages-append ls rest)

module _ (try_attach : ℕ → Bool) (patient : IsPatient try_attach) where
  emit_line-eq-messages :
      (line : Bytes) (tick : ℕ) → (emit_line try_attach true line tick).1 ≡ messages (line ∷ [])
  unfolding emit_line messages
  emit_line-eq-messages line tick =
      let (wait, soon, there) = patient tick in
      let attached = attach_within-Attaches try_attach 50 tick wait soon there in
      ground (arith, attached)

  emit_lines-eq-messages :
      (ls : List Bytes) (tick : ℕ) → (emit_lines try_attach true ls tick).1 ≡ messages ls
  unfolding emit_lines messages
  emit_lines-eq-messages [] tick = refl
  emit_lines-eq-messages (l ∷ ls) tick =
      ap₂ ◌++◌ (emit_line-eq-messages l tick)
        (emit_lines-eq-messages ls (emit_line try_attach true l tick).0)
      ∙ sym (messages-append (l ∷ []) ls)

  consume-eq-messages :
      (pending : Bytes) (chunks : List Bytes) (tick : ℕ)
      → take_line pending ≡ none
      → consume try_attach true pending chunks tick ≡ messages (lines (pending ++ concat chunks))
  unfolding consume concat messages
  consume-eq-messages pending [] tick clean =
      let whole = ap lines (append-nil pending) ∙ lines-none pending clean in
      elim (Bool-cases (pending =? [])) [
        | inl is_empty ↦ ground (arith, is_empty, whole)
        | inr is_rest ↦ ground (arith, is_rest, whole, emit_line-eq-messages pending tick)
      ]
  consume-eq-messages pending (chunk ∷ chunks) tick clean =
      let text = pending ++ chunk in
      let (same, left_clean) = drain_lines_lem (length text) text (concat chunks) (omega arith) in
      let (ls, left) = drain_lines (length text) text in
      let now = emit_lines-eq-messages (drain_lines (length text) text).0 tick in
      let later =
        consume-eq-messages (drain_lines (length text) text).1 chunks
          (emit_lines try_attach true (drain_lines (length text) text).0 tick).0 left_clean in
      ap₂ ◌++◌ now later
      ∙ sym (messages-append (drain_lines (length text) text).0 _)
      ∙ ap messages (sym same)
      ∙ ap (λ s. messages (lines s)) (append_assoc pending chunk (concat chunks))

  -- Where one of any fifty attempts in a row to attach to the interpreter succeeds, Python's logger is
  -- given the lines of the whole text that was sent, in order, each once and without its line end and
  -- the last also where no newline ends it, less those with nothing else in them; how the text was
  -- cut into chunks makes no difference.
  pub spawn_log_consumer-eq-messages :
      (chunks : List Bytes)
      → spawn_log_consumer try_attach true chunks ≡ messages (lines (concat chunks))
  unfolding spawn_log_consumer take_line
  spawn_log_consumer-eq-messages chunks = consume-eq-messages [] chunks 0 refl
