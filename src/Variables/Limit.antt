-- ===== src/Variables/Limit.antt =====
-- How much of a container its summary shows.
use vscode_lldb.Common.{
  ℕ, zero, suc, ◌+◌, ◌<◌, ◌≤◌, ◌≡◌, refl, ap, sym, ◌∙◌, Bool, true, false, Option, none, some, List,
  [], ◌∷◌, ◌++◌, length, length-append, All, append-nil, append_assoc, ltb, leb, leb→le,
  if◌then◌else◌, arith, Bool-cases, inl, inr,
}
use vscode_lldb.Common.Text.{Text, codes}
use vscode_lldb.Variables.{VariableApi}
use vscode_lldb.Variables.Summary.{
  Settings, Clock, should_stop, item, write_item, write_children, close, get_container_summary,
}

-- texts with a separator before each but the first
abbrev pub separated : Text → List Text → Text
separated sep [] = []
separated sep (x ∷ xs) = sep ++ (x ++ separated (codes ", ") xs)

abbrev pub joined : List Text → Text
joined = separated []

abbrev pub cons? : Option Text → List Text → List Text
cons? none xs = xs
cons? (some x) xs = x ∷ xs

abbrev pub braced : Text → Text
braced s = b'{' ∷ ((if leb (length s) 0 then codes "..." else s) ++ codes "}")

close-brace : (t : Text) → close (b'{' ∷ t) ≡ braced t
unfolding close
close-brace [] = refl
close-brace (c ∷ t) =
    let closes : leb (length (b'{' ∷ c ∷ t)) 1 ≡ false = ground arith in
    let some_text : leb (length (c ∷ t)) 0 ≡ false = ground arith in rw (closes, some_text) refl

module _ (api : VariableApi) (s : Settings) (clock : Clock) (unlimited : Bool) where
  -- what there is to say of the first k children
  abbrev pub items : ℕ → List api.SBValue → List Text
  items zero cs = []
  items (suc k) [] = []
  items (suc k) (c ∷ cs) = cons? (item api c) (items k cs)

  abbrev pub cut : ℕ → List api.SBValue → List Text
  cut k cs = if ltb k (length cs) then codes "..." ∷ [] else []

  write_item-cons? :
      (summary sep : Text) (o : Option Text) (xs : List Text)
      → (write_item api summary sep o).0 ++ separated (write_item api summary sep o).1 xs
        ≡ summary ++ separated sep (cons? o xs)
  write_item-cons? summary sep none xs = refl
  write_item-cons? summary sep (some x) xs = rw (append_assoc, append_assoc) refl

  cons?-append : (o : Option Text) (xs ys : List Text) → cons? o (xs ++ ys) ≡ cons? o xs ++ ys
  cons?-append none xs ys = refl
  cons?-append (some x) xs ys = refl

  cut-zero : (c : api.SBValue) (cs : List api.SBValue) → cut 0 (c ∷ cs) ≡ codes "..." ∷ []
  cut-zero c cs = ground arith

  cut-suc : (k : ℕ) (c : api.SBValue) (cs : List api.SBValue) → cut (suc k) (c ∷ cs) ≡ cut k cs
  cut-suc k c cs = ground arith

  -- the first place at which the loop is to stop, or the end
  abbrev IsStop : ℕ → Text → Text → List api.SBValue → ℕ → Type 0
  IsStop i summary sep cs k =
      (k ≤ length cs)
      × ((j : ℕ)
          → j < k
          → should_stop s clock unlimited (i + j) (summary ++ separated sep (items j cs)) ≡ false)
      × (k < length cs
          → should_stop s clock unlimited (i + k) (summary ++ separated sep (items k cs)) ≡ true)

  stop-eq :
      {i j : ℕ} {a b : Text}
      → i ≡ j
      → a ≡ b
      → should_stop s clock unlimited i a ≡ should_stop s clock unlimited j b
  stop-eq p q = rw (p, q) refl

  IsStop-earlier :
      (i : ℕ) (summary sep : Text) (c : api.SBValue) (cs : List api.SBValue) (k : ℕ)
      → should_stop s clock unlimited i summary ≡ false
      → IsStop
          (suc i)
          (write_item api summary sep (item api c)).0
          (write_item api summary sep (item api c)).1
          cs
          k
      → (j : ℕ) → j < suc k
      → should_stop s clock unlimited (i + j) (summary ++ separated sep (items j (c ∷ cs))) ≡ false
  IsStop-earlier i summary sep c cs k on h zero lt = stop-eq (omega arith) (append-nil summary) ∙ on
  IsStop-earlier i summary sep c cs k on h (suc j) lt =
      stop-eq (omega arith) (sym (write_item-cons? summary sep (item api c) (items j cs)))
      ∙ h.1 j (omega arith)

  IsStop-suc :
      (i : ℕ) (summary sep : Text) (c : api.SBValue) (cs : List api.SBValue) (k : ℕ)
      → should_stop s clock unlimited i summary ≡ false
      → IsStop
          (suc i)
          (write_item api summary sep (item api c)).0
          (write_item api summary sep (item api c)).1
          cs
          k
      → IsStop i summary sep (c ∷ cs) (suc k)
  IsStop-suc i summary sep c cs k on h = (
    omega (arith, h.0),
    IsStop-earlier i summary sep c cs k on h,
    λ lt.
        stop-eq (omega arith) (sym (write_item-cons? summary sep (item api c) (items k cs)))
        ∙ h.2 (omega arith),
  )

  write_children-IsStop :
      (i : ℕ) (summary sep : Text) (cs : List api.SBValue)
      → (k : ℕ) × IsStop i summary sep cs k
        × (write_children api s clock unlimited i summary sep cs
            ≡ summary ++ separated sep (items k cs ++ cut k cs))
  unfolding write_children
  write_children-IsStop i summary sep [] = (
    0,
    (omega arith, (λ j lt. absurd (omega arith)), λ lt. absurd (omega arith)),
    sym (append-nil summary),
  )
  write_children-IsStop i summary sep (c ∷ cs) =
      elim (Bool-cases (should_stop s clock unlimited i summary)) [
        | inl stop ↦ (
          0,
          (
            omega arith,
            (λ j lt. absurd (omega arith)),
            λ lt. stop-eq (omega arith) (append-nil summary) ∙ stop,
          ),
          rw (stop, cut-zero c cs) refl,
        )
        | inr on ↦
            let w = write_item api summary sep (item api c) in
            let rest = write_children-IsStop (suc i) w.0 w.1 cs in
            (
              suc rest.0,
              IsStop-suc i summary sep c cs rest.0 on rest.1,
              rw on (
                  rest.2
                  ∙ write_item-cons? summary sep (item api c) (items rest.0 cs ++ cut rest.0 cs)
                  ∙ rw (cons?-append, cut-suc) refl),
            )
      ]

  -- The summary of a container is its children's items in braces, up to the first child before which
  -- the loop is to stop (the request is cancelled or, unless the summary is unlimited, the text is
  -- longer than the setting allows or the time is up), behind which stands "...". It is "{...}" when
  -- there is nothing to say.
  pub get_container_summary_lem :
      (var : api.SBValue)
      → (k : ℕ) × IsStop 0 (codes "{") [] (api.children var) k
        × (get_container_summary api s clock var unlimited
            ≡ braced (joined (items k (api.children var) ++ cut k (api.children var))))
  unfolding get_container_summary close
  get_container_summary_lem var =
      let w = write_children-IsStop 0 (codes "{") [] (api.children var) in
      (
        w.0,
        w.1,
        ap close w.2
            ∙ close-brace (joined (items w.0 (api.children var) ++ cut w.0 (api.children var))),
      )

module _ (api : VariableApi) (s : Settings) (clock : Clock) (m : ℕ) where
  abbrev IsShort : api.SBValue → Type 0
  IsShort c = (x : Text) → item api c ≡ some x → length x ≤ m

  on-le :
      (i : ℕ) (summary : Text)
      → should_stop s clock false i summary ≡ false
      → length summary ≤ s.max_summary_length
  unfolding should_stop
  on-le i summary h = ground (arith, h)

  write_item-le :
      (summary sep : Text) (o : Option Text)
      → ((x : Text) → o ≡ some x → length x ≤ m)
      → length sep ≤ 2
      → length summary ≤ s.max_summary_length
      → (length (write_item api summary sep o).1 ≤ 2)
        × (length (write_item api summary sep o).0 ≤ s.max_summary_length + (m + 2))
  write_item-le summary sep none short sep_le le = (sep_le, omega arith)
  write_item-le summary sep (some x) short sep_le le = (
    omega arith,
    omega (arith, short x refl, length-append summary (sep ++ x), length-append sep x),
  )

  write_children-le :
      (i : ℕ) (summary sep : Text) (cs : List api.SBValue)
      → All IsShort cs
      → length sep ≤ 2
      → length summary ≤ s.max_summary_length + (m + 2)
      → length (write_children api s clock false i summary sep cs) ≤ s.max_summary_length + (m + 7)
  unfolding write_children should_stop
  write_children-le i summary sep [] short sep_le le = omega arith
  write_children-le i summary sep (c ∷ cs) short sep_le le =
      elim (Bool-cases (should_stop s clock false i summary)) [
        | inl stop ↦ rw stop (
            omega
              (arith, length-append summary (sep ++ codes "..."), length-append sep (codes "...")))
        | inr on ↦
            let item_le =
              write_item-le summary sep (item api c) short.0 sep_le (on-le i summary on) in
            rw on (write_children-le (suc i) _ _ cs short.1 item_le.0 item_le.1)
      ]

  close-le :
      (t : Text)
      → length t ≤ s.max_summary_length + (m + 7)
      → length (close t) ≤ s.max_summary_length + (m + 8)
  unfolding close
  close-le t le = elim (Bool-cases (leb (length t) 1)) [
    | inl short ↦ rw short (
        omega (
          arith,
          leb→le (length t) 1 short,
          length-append (t ++ codes "...") (codes "}"),
          length-append t (codes "..."),
        ))
    | inr long ↦ rw long (omega (arith, length-append t (codes "}")))
  ]

  -- A summary that is not unlimited has at most eight bytes more than the setting and the longest
  -- item together, whatever the clock says.
  pub get_container_summary-le :
      (var : api.SBValue)
      → All IsShort (api.children var)
      → length (get_container_summary api s clock var false) ≤ s.max_summary_length + (m + 8)
  unfolding get_container_summary
  get_container_summary-le var short =
      close-le (write_children api s clock false 0 (codes "{") [] (api.children var))
        (write_children-le 0 (codes "{") [] (api.children var) short (omega arith) (omega arith))
