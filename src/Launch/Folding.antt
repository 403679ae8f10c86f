-- ===== src/Launch/Folding.antt =====
-- Which value a key of the composed environment has.
use vscode_lldb.Common.{
  Bool, true, false, Option, none, some, List, [], ◌∷◌, ◌++◌, ◌≡◌, refl, sym, ap, ◌∙◌,
  if◌then◌else◌, arith, Bool-cases, inl, inr, map,
}
use vscode_lldb.Common.Map.{Map, get, insert, get-insert, Text_eq}
use vscode_lldb.Common.Text.{Text, codes, text_eq, text_eq_iff, str_contains}
use vscode_lldb.Launch.Environment.{
  EnvironmentApi, entries, fold_found, Env, set_all, set_entries, launch_env,
}

module _ (to_uppercase : Text → Text) where
  -- What two spellings of one key have in common.
  abbrev pub norm : Bool → Text → Text
  norm true k = to_uppercase k
  norm false k = k

  -- the first key in the list that is spelled like this one, but for case
  abbrev pub first_spelling : Bool → Text → List (Text × Text) → Option Text
  first_spelling ic u [] = none
  first_spelling ic u ((k, v) ∷ rest) =
      let later = first_spelling ic u rest in if text_eq u (norm ic k) then some k else later

  -- the last value of that key in the list, or the default
  abbrev pub last_value : Bool → Text → Option Text → List (Text × Text) → Option Text
  last_value ic u d [] = d
  last_value ic u d ((k, v) ∷ rest) =
      last_value ic u (if text_eq u (norm ic k) then some v else d) rest

  abbrev or_first : Option Text → Option Text → Option Text
  or_first (some a) b = some a
  or_first none b = b

  abbrev pub is_key : Text → Option Text → Bool
  is_key k none = false
  is_key k (some j) = text_eq k j

  -- The value of a key: the last one under any of its spellings if this is the first of them, and
  -- otherwise what was there.
  abbrev pub expected : Bool → Text → Option Text → Option Text → List (Text × Text) → Option Text
  expected ic k seen d sets =
      if is_key k (or_first seen (first_spelling ic (norm ic k) sets))
      then last_value ic (norm ic k) d sets
      else d

  -- The table of spellings has them under their upper case.
  abbrev IsFolded : Bool → Map Text Text → Type 0
  IsFolded true m = (u j : Text) → get u m ≡ some j → to_uppercase j ≡ u
  IsFolded false m = m ≡ []

  same-key :
      (ic : Bool) (k j v c : Text) (seen d : Option Text) (sets : List (Text × Text))
      → text_eq (norm ic k) (norm ic j) ≡ true
      → or_first seen (some j) ≡ some c
      → expected ic k (some c) (if text_eq k c then some v else d) sets
        ≡ expected ic k seen d ((j, v) ∷ sets)
  same-key ic k j v c seen d sets h first = elim (Bool-cases (text_eq k c)) [
    | inl this ↦ rw (h, first, this) refl
    | inr other ↦ rw (h, first, other) refl
  ]

  other-key :
      (ic : Bool) (k j v c : Text) (seen d : Option Text) (sets : List (Text × Text))
      → text_eq (norm ic k) (norm ic j) ≡ false
      → text_eq k c ≡ false
      → expected ic k seen (if text_eq k c then some v else d) sets
        ≡ expected ic k seen d ((j, v) ∷ sets)
  other-key ic k j v c seen d sets h other = rw (other, h) refl

  -- a key of another class
  differs :
      (k j c : Text)
      → text_eq (to_uppercase k) (to_uppercase j) ≡ false
      → to_uppercase c ≡ to_uppercase j
      → text_eq k c ≡ false
  differs k j c h up = elim (Bool-cases (text_eq k c)) [
    | inl same ↦
        let e : k ≡ c = (text_eq_iff k c).0 same in
        let u : to_uppercase k ≡ to_uppercase j = ap to_uppercase e ∙ up in
        let t : text_eq (to_uppercase k) (to_uppercase j) ≡ true = (text_eq_iff _ _).1 u in cc
    | inr other ↦ other
  ]

  -- one more key, folded
  fold-expected :
      (o : Option Text) (k j v : Text) (m : Map Text Text) (d : Option Text)
      (sets : List (Text × Text))
      → IsFolded true m
      → get (to_uppercase j) m ≡ o
      → let c = (fold_found to_uppercase o j m).0 in
        expected true k
          (get (to_uppercase k) (fold_found to_uppercase o j m).1)
          (if text_eq k c then some v else d)
          sets
        ≡ expected true k (get (to_uppercase k) m) d ((j, v) ∷ sets)
  fold-expected (some c) k j v m d sets folded h =
      elim (Bool-cases (text_eq (to_uppercase k) (to_uppercase j))) [
        | inl same ↦
            let e : to_uppercase k ≡ to_uppercase j = (text_eq_iff _ _).0 same in
            let seen : get (to_uppercase k) m ≡ some c = ap (λ u. get u m) e ∙ h in
            rw seen (same-key true k j v c (some c) d sets same refl)
        | inr other ↦
            other-key true k j v c (get (to_uppercase k) m) d sets other
              (differs k j c other (folded (to_uppercase j) c h))
      ]
  fold-expected none k j v m d sets folded h =
      elim (Bool-cases (text_eq (to_uppercase k) (to_uppercase j))) [
        | inl same ↦
            let e : to_uppercase k ≡ to_uppercase j = (text_eq_iff _ _).0 same in
            let seen : get (to_uppercase k) m ≡ none = ap (λ u. get u m) e ∙ h in
            let now : get (to_uppercase k) (insert (to_uppercase j) j m) ≡ some j =
              get-insert (to_uppercase k) (to_uppercase j) j m ∙ rw same refl in
            rw now (rw seen (same-key true k j v j none d sets same refl))
        | inr other ↦
            let now : get (to_uppercase k) (insert (to_uppercase j) j m) ≡ get (to_uppercase k) m =
              get-insert (to_uppercase k) (to_uppercase j) j m ∙ rw other refl in
            rw now (
              other-key true k j v j (get (to_uppercase k) m) d sets other
                (differs k j j other refl))
      ]

  fold-IsFolded :
      (o : Option Text) (j : Text) (m : Map Text Text)
      → IsFolded true m
      → IsFolded true (fold_found to_uppercase o j m).1
  fold-IsFolded (some c) j m folded = folded
  fold-IsFolded none j m folded = λ u i h. elim (Bool-cases (text_eq u (to_uppercase j))) [
    | inl same ↦
        let e : u ≡ to_uppercase j = (text_eq_iff _ _).0 same in
        let here : some j ≡ some i = sym (get-insert u (to_uppercase j) j m ∙ rw same refl) ∙ h in
        cc
    | inr other ↦ folded u i (sym (get-insert u (to_uppercase j) j m ∙ rw other refl) ∙ h)
  ]

  -- Where case counts, a key is its own first spelling.
  plain :
      (k : Text) (d : Option Text) (sets : List (Text × Text))
      → (if is_key k (first_spelling false k sets) then last_value false k d sets else d)
        ≡ last_value false k d sets
  plain k d [] = refl
  plain k d ((j, v) ∷ sets) = elim (Bool-cases (text_eq k j)) [
    | inl same ↦ rw (same, same) refl
    | inr other ↦ rw other (plain k d sets)
  ]

  plain-step :
      (k j v : Text) (d : Option Text) (sets : List (Text × Text))
      → expected false k none (if text_eq k j then some v else d) sets
        ≡ expected false k none d ((j, v) ∷ sets)
  plain-step k j v d sets = elim (Bool-cases (text_eq k j)) [
    | inl same ↦ rw (same, same) (plain k (some v) sets)
    | inr other ↦ rw other refl
  ]

  module _ (api : EnvironmentApi)
      (get-set : (j k v : Text) (e : api.SBEnvironment)
        → api.get_env j (api.set_env k v true e)
          ≡ (if text_eq j k then some v else api.get_env j e)) where
    set_all-get :
        (ic : Bool) (sets : List (Text × Text)) (m : Map Text Text) (e : api.SBEnvironment)
        (k : Text)
        → IsFolded ic m
        → api.get_env k (set_all to_uppercase api ic sets (m, e)).1
          ≡ expected ic k (get (norm ic k) m) (api.get_env k e) sets
    unfolding set_all
    set_all-get ic [] m e k folded = ground arith
    set_all-get true ((j, v) ∷ sets) m e k folded =
        let o = get (to_uppercase j) m in
        let f = fold_found to_uppercase o j m in
        set_all-get true sets f.1 (api.set_env f.0 v true e) k (fold-IsFolded o j m folded)
        ∙ rw (get-set k f.0 v e) (fold-expected o k j v m (api.get_env k e) sets folded refl)
    set_all-get false ((j, v) ∷ sets) m e k folded =
        set_all-get false sets m (api.set_env j v true e) k folded
        ∙ rw (get-set k j v e, folded) (plain-step k j v (api.get_env k e) sets)

    set_all-append :
        (ic : Bool) (xs ys : List (Text × Text)) (e : Env to_uppercase api)
        → set_all to_uppercase api ic (xs ++ ys) e
          ≡ set_all to_uppercase api ic ys (set_all to_uppercase api ic xs e)
    unfolding set_all
    set_all-append ic [] ys e = refl
    set_all-append ic ((k, v) ∷ xs) ys e = set_all-append ic xs ys _

    set_entries-readable :
        (ic : Bool) (xs : List (Text × Text)) (e : Env to_uppercase api)
        → set_entries to_uppercase api ic (map (λ kv. (none, kv.0, kv.1)) xs) e
          ≡ (none, set_all to_uppercase api ic xs e)
    unfolding set_all set_entries
    set_entries-readable ic [] e = refl
    set_entries-readable ic ((k, v) ∷ xs) e = set_entries-readable ic xs _

    IsFolded-nil : (ic : Bool) → IsFolded ic []
    unfolding get
    IsFolded-nil true = λ u j h. cc
    IsFolded-nil false = refl

    launch_env-set_all :
        (triple path : Text) (inherit_env : Bool) (platform : api.SBEnvironment)
        (from_file env : List (Text × Text))
        → launch_env to_uppercase api triple inherit_env platform
            (some (path, entries (map (λ kv. (none, kv.0, kv.1)) from_file)))
            (some env)
          ≡ (
            none,
            set_all to_uppercase api
                (str_contains (codes "windows") triple)
                (from_file ++ env)
                ([], if inherit_env then platform else api.new),
            [],
          )
    unfolding launch_env
    launch_env-set_all triple path inherit_env platform from_file env =
        let ic = str_contains (codes "windows") triple in
        let start = if inherit_env then platform else api.new in
        rw
          (
            set_entries-readable ic from_file ([], start),
            set_all-append ic from_file env ([], start),
          )
          refl

    set_all-start :
        (ic : Bool) (sets : List (Text × Text)) (e : api.SBEnvironment) (k : Text)
        → api.get_env k (set_all to_uppercase api ic sets ([], e)).1
          ≡ expected ic k none (api.get_env k e) sets
    unfolding get
    set_all-start ic sets e k = set_all-get ic sets [] e k (IsFolded-nil ic)

    -- The environment of a launch, from the entries of a file that can all be read and then those of
    -- the configuration: a key has the last value under any of its spellings if it is the first of
    -- them that is set, and otherwise what it has in the environment that is inherited, or nothing.
    -- Spellings differ in case on Windows, and do not differ elsewhere. There is no error.
    pub launch_env_lem :
        (triple path k : Text) (inherit_env : Bool) (platform : api.SBEnvironment)
        (from_file env : List (Text × Text))
        → let ic = str_contains (codes "windows") triple in
          let start = if inherit_env then platform else api.new in
          let result =
            launch_env to_uppercase api triple inherit_env platform
              (some (path, entries (map (λ kv. (none, kv.0, kv.1)) from_file)))
              (some env) in
          (result.0 ≡ none)
          × (api.get_env k result.1.1 ≡ expected ic k none (api.get_env k start) (from_file ++ env))
    launch_env_lem triple path k inherit_env platform from_file env =
        let ic = str_contains (codes "windows") triple in
        let start = if inherit_env then platform else api.new in
        let all = launch_env-set_all triple path inherit_env platform from_file env in
        (
          ap (λ r. r.0) all,
          ap (λ r. api.get_env k r.1.1) all ∙ set_all-start ic (from_file ++ env) start k,
        )
