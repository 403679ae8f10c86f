-- ===== src/Breakpoints/Logpoint.antt =====
-- `replace_logpoint_expressions`: the expressions in braces of a log message are replaced by the
-- texts of their values, or of the errors of their evaluation.
use vscode_lldb.Common.{
  ℕ, zero, suc, ◌+◌, ◌-◌, ◌≡◌, ◌≢◌, ◌⊎◌, refl, ap, ◌∙◌, Bool, true, false, ◌&&◌, List, [], ◌∷◌,
  ◌++◌, append-nil, append_assoc, arith, ltb, ◌==◌, if◌then◌else◌, Bool-cases, inl, inr,
}
use vscode_lldb.Common.Text.{Text, codes}

-- what `f` gives for an expression: its text, or an error's
abbrev pub Evaluate : Type 0
Evaluate = Text → Text ⊎ Text

-- `format!("{{Error: {}}}", err)`
abbrev pub value_text : Text ⊎ Text → Text
value_text (inl value) = value
value_text (inr e) = codes "{Error: " ++ (e ++ codes "}")

-- The loop's variables: `pending` is `&message[start..idx]`, the text since the last position that
-- was copied, and `result` is what has been written.
pub record LogState : Type 0 where
  pub nesting : ℕ
  pub pending : Text
  pub result : Text

abbrev keep : LogState → ℕ → ℕ → LogState
keep s ch nesting = record s { nesting = nesting; pending = s.pending ++ ch ∷ [] }

unfoldable pub log_step : Evaluate → LogState → ℕ → LogState
log_step f s ch =
    if ch == b'{'
    then (if s.nesting == 0
        then record { nesting = 1; pending = []; result = s.result ++ s.pending }
        else keep s ch (s.nesting + 1))
    else if ch == b'}' && ltb 0 s.nesting
    then (if s.nesting == 1
        then record { nesting = 0; pending = []; result = s.result ++ value_text (f s.pending) }
        else keep s ch (s.nesting - 1))
    else keep s ch s.nesting

unfoldable pub scan : Evaluate → LogState → Text → Text
scan f s [] = s.result ++ s.pending
scan f s (ch ∷ rest) = scan f (log_step f s ch) rest

unfoldable pub replace_logpoint_expressions : Evaluate → Text → Text
unfolding scan log_step
replace_logpoint_expressions f message =
    scan f (record { nesting = 0; pending = []; result = [] }) message

-- A log message as its author means it.
pub data Segment : Type 0 where
  text : Text → Segment
  expr : Text → Segment

-- From nesting `d` on every closing brace has its opening one, and all are closed in the end.
unfoldable pub balanced : ℕ → Text → Bool
balanced d [] = d == 0
balanced zero (c ∷ cs) =
    let open_one = balanced 1 cs in
    let same = balanced 0 cs in if c == b'{' then open_one else if c == b'}' then false else same
balanced (suc d) (c ∷ cs) =
    let open_one = balanced (suc (suc d)) cs in
    let close_one = balanced d cs in
    let same = balanced (suc d) cs in
    if c == b'{' then open_one else if c == b'}' then close_one else same

abbrev pub HasNo : ℕ → Text → Type 0
HasNo b [] = Unit
HasNo b (c ∷ cs) = (c ≢ b) × HasNo b cs

abbrev pub IsWritable : List Segment → Type 0
IsWritable [] = Unit
IsWritable (text t ∷ rest) = HasNo b'{' t × IsWritable rest
IsWritable (expr e ∷ rest) = (balanced 0 e ≡ true) × IsWritable rest

abbrev pub write : List Segment → Text
write [] = []
write (text t ∷ rest) = t ++ write rest
write (expr e ∷ rest) = b'{' ∷ (e ++ b'}' ∷ write rest)

abbrev pub value : Evaluate → List Segment → Text
value f [] = []
value f (text t ∷ rest) = t ++ value f rest
value f (expr e ∷ rest) = value_text (f e) ++ value f rest

module _ (f : Evaluate) where
  abbrev at : ℕ → Text → Text → LogState
  at n p r = record { nesting = n; pending = p; result = r }

  scan-text :
      (t p r rest : Text)
      → HasNo b'{' t
      → scan f (at 0 p r) (t ++ rest) ≡ scan f (at 0 (p ++ t) r) rest
  unfolding scan
  scan-text [] p r rest h = rw append-nil refl
  scan-text (c ∷ t) p r rest h =
      let kept : log_step f (at 0 p r) c ≡ at 0 (p ++ c ∷ []) r =
        unfold log_step in ground (arith, h.0) in
      ap (λ s. scan f s (t ++ rest)) kept
      ∙ scan-text t (p ++ c ∷ []) r rest h.1
      ∙ rw append_assoc refl

  keeps :
      (c n m : ℕ) (p r e rest : Text)
      → log_step f (at n p r) c ≡ at m (p ++ c ∷ []) r
      → scan f (at m (p ++ c ∷ []) r) (e ++ b'}' ∷ rest)
        ≡ scan f (at 0 [] (r ++ value_text (f ((p ++ c ∷ []) ++ e)))) rest
      → scan f (at n p r) ((c ∷ e) ++ b'}' ∷ rest)
        ≡ scan f (at 0 [] (r ++ value_text (f (p ++ c ∷ e)))) rest
  unfolding scan
  keeps c n m p r e rest kept ih =
      ap (λ s. scan f s (e ++ b'}' ∷ rest)) kept ∙ ih ∙ rw append_assoc refl

  closes :
      (p r rest : Text)
      → scan f (at 1 p r) (b'}' ∷ rest) ≡ scan f (at 0 [] (r ++ value_text (f p))) rest
  unfolding scan log_step
  closes p r rest = refl

  scan-expr :
      (e p r rest : Text) (d : ℕ)
      → balanced d e ≡ true
      → scan f (at (suc d) p r) (e ++ b'}' ∷ rest)
        ≡ scan f (at 0 [] (r ++ value_text (f (p ++ e)))) rest
  unfolding balanced
  scan-expr [] p r rest d h = let z : d ≡ 0 = ground arith in rw (z, append-nil) (closes p r rest)
  scan-expr (c ∷ e) p r rest zero h = elim (Bool-cases (c == b'{')) [
    | inl open_it ↦
        keeps c 1 2 p r e rest (unfold log_step in ground (arith, open_it))
          (scan-expr e (p ++ c ∷ []) r rest 1 (ground (arith, open_it)))
    | inr not_open ↦ elim (Bool-cases (c == b'}')) [
      | inl close_it ↦ absurd (ground (arith, close_it, not_open))
      | inr other ↦
          keeps c 1 1 p r e rest (unfold log_step in ground (arith, not_open, other))
            (scan-expr e (p ++ c ∷ []) r rest 0 (ground (arith, not_open, other)))
    ]
  ]
  scan-expr (c ∷ e) p r rest (suc d) h = elim (Bool-cases (c == b'{')) [
    | inl open_it ↦
        keeps c (suc (suc d)) (suc (suc (suc d))) p r e rest
          (unfold log_step in ground (arith, open_it))
          (scan-expr e (p ++ c ∷ []) r rest (suc (suc d)) (ground (arith, open_it)))
    | inr not_open ↦ elim (Bool-cases (c == b'}')) [
      | inl close_it ↦
          keeps c (suc (suc d)) (suc d) p r e rest
            (unfold log_step in ground (arith, close_it, not_open))
            (scan-expr e (p ++ c ∷ []) r rest d (ground (arith, close_it, not_open)))
      | inr other ↦
          keeps c (suc (suc d)) (suc (suc d)) p r e rest
            (unfold log_step in ground (arith, not_open, other))
            (scan-expr e (p ++ c ∷ []) r rest (suc d) (ground (arith, not_open, other)))
    ]
  ]

  opens : (p r rest : Text) → scan f (at 0 p r) (b'{' ∷ rest) ≡ scan f (at 1 [] (r ++ p)) rest
  unfolding scan log_step
  opens p r rest = refl

  scan-write :
      (ss : List Segment) (p r : Text)
      → IsWritable ss
      → scan f (at 0 p r) (write ss) ≡ r ++ (p ++ value f ss)
  scan-write [] p r h = unfold scan in rw append-nil refl
  scan-write (text t ∷ ss) p r h =
      scan-text t p r (write ss) h.0 ∙ scan-write ss (p ++ t) r h.1 ∙ rw append_assoc refl
  scan-write (expr e ∷ ss) p r h =
      opens p r (e ++ b'}' ∷ write ss)
      ∙ scan-expr e [] (r ++ p) (write ss) 0 h.0
      ∙ scan-write ss [] ((r ++ p) ++ value_text (f e)) h.1
      ∙ simp append_assoc

  -- In a message of texts without opening braces, and of expressions in braces whose own braces
  -- balance, every expression is replaced by its value or error, and the texts stay.
  pub replace-write :
      (ss : List Segment) → IsWritable ss → replace_logpoint_expressions f (write ss) ≡ value f ss
  unfolding replace_logpoint_expressions
  replace-write ss h = scan-write ss [] [] h

  scan_unclosed : (e p r : Text) → HasNo b'{' e → HasNo b'}' e → scan f (at 1 p r) e ≡ r ++ (p ++ e)
  unfolding scan
  scan_unclosed [] p r h k = rw append-nil refl
  scan_unclosed (c ∷ e) p r h k =
      let kept : log_step f (at 1 p r) c ≡ at 1 (p ++ c ∷ []) r =
        unfold log_step in ground (arith, h.0, k.0) in
      ap (λ s. scan f s e) kept ∙ scan_unclosed e (p ++ c ∷ []) r h.1 k.1 ∙ rw append_assoc refl

  -- A brace that is never closed vanishes from the output; the text on both sides stays.
  pub replace_unclosed :
      (t e : Text)
      → HasNo b'{' t
      → HasNo b'{' e
      → HasNo b'}' e
      → replace_logpoint_expressions f (t ++ b'{' ∷ e) ≡ t ++ e
  unfolding replace_logpoint_expressions
  replace_unclosed t e h k l =
      scan-text t [] [] (b'{' ∷ e) h ∙ opens t [] e ∙ scan_unclosed e [] t k l
