-- ===== src/Observer/Logs/Trace.antt =====
-- The log that the runtime writes for a run, and what has to be read from it.
use mathlib.Core.List.{append_assoc}
use iron_vault.Observer.Events.Decode.{Codec}
use iron_vault.Observer.Fallible.{Fallible}
use iron_vault.Observer.Logs.{
  Scan, enter, extract_events, extract_from, is_data, is_exit, observe, or_default, parse_invoke,
}
use iron_vault.Observer.Store.{ObservedEvent, eq_text}
use iron_vault.Prelude.{
  Bool, Bool-cases, List, Option, String, [], ap, arith, false, if◌then◌else◌, inl, inr, length,
  length-append, none, refl, some, suc, sym, true, zero, ℕ, ◌&&◌, ◌++◌, ◌+◌, ◌<◌, ◌==◌, ◌∙◌, ◌∷◌,
  ◌≡◌, ◌≤◌,
}
use iron_vault.Prelude.Int.{negsuc, pos, pos_part, ℤ, ◌+ℤ◌}

-- The lines of a sequence of calls, the inner ones with their lines between theirs.
pub data Trace : Type 0 where
  end : Trace
  said : String → Trace → Trace
  called : String → String → Trace → String → Trace → Trace

abbrev pub lines : Trace → List String
lines end = []
lines (said line rest) = line ∷ lines rest
lines (called callee opening inner closing rest) = opening ∷ lines inner ++ (closing ∷ lines rest)

-- A line that neither opens nor ends a call.
abbrev pub IsPlain : String → Type 0
IsPlain line = (parse_invoke line ≡ none) × (is_exit line ≡ false)

-- Each call is between the line that opens it, with its depth, and the line that ends it.
abbrev pub IsLogged : ℕ → Trace → Type 0
IsLogged depth end = Unit
IsLogged depth (said line rest) = IsPlain line × IsLogged depth rest
IsLogged depth (called callee opening inner closing rest) =
    (parse_invoke opening ≡ some (callee, depth))
    × IsLogged (suc depth) inner
    × (parse_invoke closing ≡ none)
    × (is_exit closing ≡ true)
    × IsLogged depth rest

-- The data lines that the program wrote itself, in a call of its own or in calls inside of it.
abbrev pub data_lines : String → Bool → Trace → List String
data_lines program_id own end = []
data_lines program_id own (said line rest) =
    if own && is_data line
    then line ∷ data_lines program_id own rest
    else data_lines program_id own rest
data_lines program_id own (called callee opening inner closing rest) =
    data_lines program_id (eq_text callee program_id) inner ++ data_lines program_id own rest

abbrev bump : ℕ → (ℕ → Option ℕ) → ℕ → Option ℕ
bump k t i = if i == k then some (or_default (t k) + 1) else t i

abbrev bumped : ℕ → ℕ → (ℕ → Option ℕ) → ℕ → Option ℕ
bumped k zero t = t
bumped k (suc n) t = bumped k n (bump k t)

bumped-add : (k m n : ℕ) (t : ℕ → Option ℕ) → bumped k (m + n) t ≡ bumped k n (bumped k m t)
bumped-add k zero n t = let same : 0 + n ≡ n = omega arith in rw same refl
bumped-add k (suc m) n t =
    let same : suc m + n ≡ suc (m + n) = omega arith in rw same (bumped-add k m n (bump k t))

bumped-same : (k n : ℕ) (t : ℕ → Option ℕ) → or_default (bumped k n t k) ≡ or_default (t k) + n
bumped-same k zero t = omega arith
bumped-same k (suc n) t = bumped-same k n (bump k t) ∙ ground arith

bumped-other : (k n j : ℕ) (t : ℕ → Option ℕ) → k < j → bumped k n t j ≡ t j
bumped-other k zero j t h = refl
bumped-other k (suc n) j t h = bumped-other k n j (bump k t) h ∙ ground arith

bump-same : (k : ℕ) (t : ℕ → Option ℕ) → or_default (bump k t k) ≡ suc (or_default (t k))
bump-same k t = ground arith

next_pos : (n : ℕ) → pos n +ℤ pos 1 ≡ pos (suc n)
unfolding ◌+ℤ◌
next_pos n = ground arith

first_pos : negsuc 0 +ℤ pos 1 ≡ pos 0
unfolding ◌+ℤ◌
first_pos = refl

abbrev at : List String → ℤ → (ℕ → Option ℕ) → Scan
at stack i t = record { stack = stack; instruction_index = i; event_indexes = t }

module _ (codec : Codec) (signature : String) (slot : ℕ) (block_time : Option ℤ) where
  -- Data lines of the instruction `index`, numbered from `first`.
  abbrev pub numbered : ℕ → ℕ → List String → List (Fallible ObservedEvent)
  numbered index first [] = []
  numbered index first (line ∷ rest) =
      observe codec signature slot block_time index first line ∷ numbered index (suc first) rest

  -- The instructions of the transaction, each with its own numbering.
  abbrev pub by_instruction : String → ℕ → Trace → List (Fallible ObservedEvent)
  by_instruction program_id index end = []
  by_instruction program_id index (said line rest) = by_instruction program_id index rest
  by_instruction program_id index (called callee opening inner closing rest) =
      numbered index 0 (data_lines program_id (eq_text callee program_id) inner)
      ++ by_instruction program_id (suc index) rest

  numbered-append :
      (index first : ℕ) (xs ys : List String)
      → numbered index first (xs ++ ys)
        ≡ numbered index first xs ++ numbered index (first + length xs) ys
  numbered-append index first [] ys = ap (λ n. numbered index n ys) (omega arith)
  numbered-append index first (x ∷ xs) ys =
      ap (λ rest. observe codec signature slot block_time index first x ∷ rest)
        (numbered-append index (suc first) xs ys
          ∙ ap (λ n. numbered index (suc first) xs ++ numbered index n ys) (omega arith))

  module _ (program_id : String) where
    abbrev read : List String → Scan → List (Fallible ObservedEvent)
    read logs s = extract_from codec signature slot block_time program_id logs s

    abbrev own_lines : String → Trace → List String
    own_lines callee trace = data_lines program_id (eq_text callee program_id) trace

    read-plain :
        (line : String) (logs : List String) (callee : String) (outer : List String) (i : ℤ)
        (t : ℕ → Option ℕ)
        → IsPlain line
        → eq_text callee program_id && is_data line ≡ false
        → read (line ∷ logs) (at (callee ∷ outer) i t) ≡ read logs (at (callee ∷ outer) i t)
    unfolding extract_from
    read-plain line logs callee outer i t (opens, exits) own = rw opens (rw exits (rw own refl))

    read-data :
        (line : String) (logs : List String) (callee : String) (outer : List String) (i : ℤ)
        (t : ℕ → Option ℕ)
        → IsPlain line
        → eq_text callee program_id && is_data line ≡ true
        → read (line ∷ logs) (at (callee ∷ outer) i t)
          ≡ observe codec signature slot block_time (pos_part i) (or_default (t (pos_part i))) line
            ∷ read logs (at (callee ∷ outer) i (bump (pos_part i) t))
    unfolding extract_from
    read-data line logs callee outer i t (opens, exits) own = rw opens (rw exits (rw own refl))

    read-exit :
        (line : String) (logs : List String) (callee : String) (outer : List String) (i : ℤ)
        (t : ℕ → Option ℕ)
        → parse_invoke line ≡ none
        → is_exit line ≡ true
        → read (line ∷ logs) (at (callee ∷ outer) i t) ≡ read logs (at outer i t)
    unfolding extract_from
    read-exit line logs callee outer i t opens exits = rw opens (rw exits refl)

    read-enter :
        (line : String) (logs : List String) (callee : String) (depth : ℕ) (s : Scan)
        → parse_invoke line ≡ some (callee, depth)
        → read (line ∷ logs) s ≡ read logs (enter callee depth s)
    unfolding extract_from
    read-enter line logs callee depth s opens = rw opens refl

    -- Two runs of data lines of one instruction, one after the other.
    numbered-join :
        (xs ys logs : List String) (stack : List String) (i : ℤ) (t : ℕ → Option ℕ)
        → numbered (pos_part i) (or_default (t (pos_part i))) xs
            ++ (numbered
                  (pos_part i)
                  (or_default (bumped (pos_part i) (length xs) t (pos_part i)))
                  ys
                ++ read logs (
                    at stack i
                      (bumped (pos_part i) (length ys) (bumped (pos_part i) (length xs) t))))
          ≡ numbered (pos_part i) (or_default (t (pos_part i))) (xs ++ ys)
            ++ read logs (at stack i (bumped (pos_part i) (length (xs ++ ys)) t))
    numbered-join xs ys logs stack i t =
        rw (numbered-append (pos_part i) (or_default (t (pos_part i))) xs ys) (
          rw (length-append xs ys) (
            rw (bumped-add (pos_part i) (length xs) (length ys) t) (
              rw (bumped-same (pos_part i) (length xs) t) (
                sym (
                  append_assoc (numbered (pos_part i) (or_default (t (pos_part i))) xs)
                    (numbered (pos_part i) (or_default (t (pos_part i)) + length xs) ys)
                    (read logs (
                      at stack i
                        (bumped (pos_part i) (length ys) (bumped (pos_part i) (length xs) t)))))))))

    read-inner_enter :
        (line : String) (logs : List String) (callee : String) (depth : ℕ) (stack : List String)
        (i : ℤ) (t : ℕ → Option ℕ)
        → 1 < depth
        → parse_invoke line ≡ some (callee, depth)
        → read (line ∷ logs) (at stack i t) ≡ read logs (at (callee ∷ stack) i t)
    read-inner_enter line logs callee depth stack i t deep opens =
        let inner : depth == 1 ≡ false = ground arith in
        read-enter line logs callee depth (at stack i t) opens ∙ rw inner refl

    -- Inside a call, its lines are read and the state is as before, but for the counter.
    read-inner :
        (depth : ℕ) (trace : Trace) (callee : String) (outer logs : List String) (i : ℤ)
        (t : ℕ → Option ℕ)
        → 1 < depth
        → IsLogged depth trace
        → read (lines trace ++ logs) (at (callee ∷ outer) i t)
          ≡ numbered (pos_part i) (or_default (t (pos_part i))) (own_lines callee trace)
            ++ read logs
                (at (callee ∷ outer) i (bumped (pos_part i) (length (own_lines callee trace)) t))
    read-inner depth end callee outer logs i t deep logged = refl
    read-inner depth (said line rest) callee outer logs i t deep (plain, logged) =
        elim (Bool-cases (eq_text callee program_id && is_data line)) [
          | inl own ↦ rw own (
              read-data line (lines rest ++ logs) callee outer i t plain own
              ∙ ap
                  (λ found.
                    observe codec signature slot block_time (pos_part i)
                      (or_default (t (pos_part i))) line
                    ∷ found)
                  (read-inner depth rest callee outer logs i (bump (pos_part i) t) deep logged
                    ∙ ap
                        (λ n.
                          numbered (pos_part i) n (own_lines callee rest)
                          ++ read logs (
                              at (callee ∷ outer) i
                                (bumped (pos_part i) (suc (length (own_lines callee rest))) t)))
                        (bump-same (pos_part i) t)))
          | inr other ↦ rw other (
              read-plain line (lines rest ++ logs) callee outer i t plain other
              ∙ read-inner depth rest callee outer logs i t deep logged)
        ]
    read-inner depth (called inner_callee opening inner closing rest) callee outer logs i t deep
          (opens, inner_logged, closes, exits, logged) =
        let k = pos_part i in
        let xs = own_lines inner_callee inner in
        let t' = bumped k (length xs) t in
        rw (append_assoc (lines inner) (closing ∷ lines rest) logs) (
          read-inner_enter opening (lines inner ++ (closing ∷ (lines rest ++ logs))) inner_callee
            depth (callee ∷ outer) i t deep opens
          ∙ read-inner (suc depth) inner inner_callee (callee ∷ outer)
              (closing ∷ (lines rest ++ logs)) i t (omega arith) inner_logged
          ∙ ap (λ found. numbered k (or_default (t k)) xs ++ found)
              (read-exit closing (lines rest ++ logs) inner_callee (callee ∷ outer) i t' closes
                  exits
                ∙ read-inner depth rest callee outer logs i t' deep logged)
          ∙ numbered-join xs (own_lines callee rest) logs (callee ∷ outer) i t)

    -- At the top, with the next instruction's number not yet used.
    read-top :
        (trace : Trace) (index : ℕ) (i : ℤ) (t : ℕ → Option ℕ)
        → IsLogged 1 trace
        → i +ℤ pos 1 ≡ pos index
        → ((j : ℕ) → index ≤ j → t j ≡ none)
        → read (lines trace) (at [] i t) ≡ by_instruction program_id index trace
    unfolding extract_from
    read-top end index i t logged following unused = refl
    read-top (said line rest) index i t ((opens, exits), logged) following unused =
        rw opens (rw exits (read-top rest index i t logged following unused))
    read-top (called callee opening inner closing rest) index i t
          (opens, inner_logged, closes, exits, logged) following unused =
        let xs = own_lines callee inner in
        let t' = bumped index (length xs) t in
        read-enter opening (lines inner ++ (closing ∷ lines rest)) callee 1 (at [] i t) opens
        ∙ ap (λ i'. read (lines inner ++ (closing ∷ lines rest)) (at (callee ∷ []) i' t)) following
        ∙ read-inner 2 inner callee [] (closing ∷ lines rest) (pos index) t (omega arith)
            inner_logged
        ∙ ap
            (λ n.
              numbered index n xs ++ read (closing ∷ lines rest) (at (callee ∷ []) (pos index) t'))
            (ap or_default (unused index (omega arith)))
        ∙ ap (λ found. numbered index 0 xs ++ found)
            (read-exit closing (lines rest) callee [] (pos index) t' closes exits
              ∙ read-top rest (suc index) (pos index) t' logged (next_pos index) (λ j h.
                bumped-other index (length xs) j t (omega arith) ∙ unused j (omega arith)))

    -- From a log in which each call stands between the line that opens it and the line that ends
    -- it, exactly the data lines are read that the program wrote itself, wherever in the calls of
    -- an instruction it was called, and they are numbered from 0 in each instruction.
    pub extract_events-trace :
        (trace : Trace)
        → IsLogged 1 trace
        → extract_events codec signature slot block_time program_id (lines trace)
          ≡ by_instruction program_id 0 trace
    unfolding extract_events
    extract_events-trace trace logged =
        read-top trace 0 (negsuc 0) (λ i. none) logged first_pos (λ j h. refl)
