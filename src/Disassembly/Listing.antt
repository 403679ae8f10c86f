-- ===== src/Disassembly/Listing.antt =====
-- The text of a listing, and which line of it shows which instruction.
use vscode_lldb.Common.{
  ℕ, suc, ◌+◌, ◌-◌, ◌*◌, ◌≡◌, refl, ap, ◌∙◌, true, none, some, List, [], ◌∷◌, ◌++◌, map, arith, leb,
  if◌then◌else◌, Option-cases, Bool-cases, inl, inr, get_elem?, get_elem?-map,
}
use vscode_lldb.Common.Text.{
  Text, codes, hex, decimal, pad_zero, pad_right, lines, lines-append, IsPlain, IsPlain-append,
  IsPlain-hex, IsPlain-decimal, IsPlain-pad_zero, IsPlain-pad_right,
}
use vscode_lldb.Disassembly.{DisasmApi, DisassembledRange, LineEntry, line_num_by_address}
use vscode_lldb.Disassembly.Lines.{IsListing, line_of_position}

-- the loop that writes the bytes of an instruction, from the byte with index `i` on
unfoldable pub dump_bytes : ℕ → ℕ → List ℕ → Text
dump_bytes max_instr_bytes i [] = []
dump_bytes max_instr_bytes i (b ∷ rest) =
    if leb max_instr_bytes i
    then b'>' ∷ []
    else pad_zero 2 (hex true b) ++ b' ' ∷ dump_bytes max_instr_bytes (i + 1) rest

IsPlain-dump_bytes : (m i : ℕ) (bytes : List ℕ) → IsPlain (dump_bytes m i bytes)
unfolding dump_bytes
IsPlain-dump_bytes m i [] = tt
IsPlain-dump_bytes m i (b ∷ rest) = elim (Bool-cases (leb m i)) [
  | inl cut ↦ rw cut (omega arith)
  | inr more ↦ rw more (
      IsPlain-append (pad_zero 2 (hex true b)) _ (IsPlain-pad_zero 2 _ (IsPlain-hex true b))
        (omega arith, IsPlain-dump_bytes m (i + 1) rest))
]

module _ (api : DisasmApi) where
  dump_of : ℕ → api.SBInstruction → Text
  unfolding dump_bytes
  dump_of max_instr_bytes instr = elim (api.raw_data instr) [
    | some bytes ↦ dump_bytes max_instr_bytes 0 bytes
    | none ↦ []
  ]

  abbrev comment_sep : Text → Text
  comment_sep [] = []
  comment_sep (c ∷ cs) = codes "  ; "

  -- one line of the listing, without its newline
  unfoldable pub instruction_line : ℕ → api.SBInstruction → Text
  unfolding dump_of
  instruction_line max_instr_bytes instr =
      pad_zero 8 (hex true (api.load_address (api.address instr)))
      ++ (codes ": "
          ++ (pad_right (max_instr_bytes * 3 + 2) (dump_of max_instr_bytes instr)
              ++ (codes " "
                  ++ (pad_right 6 (api.mnemonic instr)
                      ++ (codes " "
                          ++ (api.operands instr
                              ++ (comment_sep (api.comment instr) ++ api.comment instr)))))))

  abbrev mangled_suffix : Text → Text
  mangled_suffix [] = []
  mangled_suffix (c ∷ cs) = codes ", mangled name=" ++ (c ∷ cs)

  unfoldable pub symbol_line : api.SBAddress → Text
  symbol_line a = codes "; Symbol: " ++ (elim (api.symbol a) [
    | some s ↦ api.display_name s ++ mangled_suffix (api.mangled_name s)
    | none ↦ codes "no symbol info"
  ])

  unfoldable pub source_line : api.SBAddress → Text
  source_line a = codes "; Source: " ++ (elim (api.line_entry a) [
    | some le ↦ le.path ++ b':' ∷ decimal le.line
    | none ↦ codes "unknown"
  ])

  unfoldable pub instruction_lines : ℕ → List api.SBInstruction → Text
  instruction_lines max_instr_bytes [] = []
  instruction_lines max_instr_bytes (i ∷ rest) =
      instruction_line max_instr_bytes i ++ b'\n' ∷ instruction_lines max_instr_bytes rest

  unfoldable pub get_source_text : DisassembledRange api → ℕ → Text
  unfolding symbol_line source_line instruction_lines
  get_source_text d max_instr_bytes =
      symbol_line d.start_addr
      ++ (b'\n'
          ∷ (source_line d.start_addr
              ++ (b'\n' ∷ instruction_lines max_instr_bytes d.instructions)))

  -- The texts that liblldb answers are single lines.
  pub record SingleLines : Type 0 where
    pub mnemonic : (i : api.SBInstruction) → IsPlain (api.mnemonic i)
    pub operands : (i : api.SBInstruction) → IsPlain (api.operands i)
    pub comment : (i : api.SBInstruction) → IsPlain (api.comment i)
    pub display_name : (s : api.SBSymbol) → IsPlain (api.display_name s)
    pub mangled_name : (s : api.SBSymbol) → IsPlain (api.mangled_name s)
    pub path : (a : api.SBAddress) (le : LineEntry) → api.line_entry a ≡ some le → IsPlain le.path

module _ {api : DisasmApi} (single : SingleLines api) where
  IsPlain-dump_of : (m : ℕ) (i : api.SBInstruction) → IsPlain (dump_of api m i)
  unfolding dump_of
  IsPlain-dump_of m i = elim (Option-cases (api.raw_data i)) [
    | inl none_read ↦ rw (none_read, dump_of) tt
    | inr (bytes, read) ↦ rw (read, dump_of) (IsPlain-dump_bytes m 0 bytes)
  ]

  IsPlain-comment_sep : (c : Text) → IsPlain (comment_sep api c)
  IsPlain-comment_sep [] = tt
  IsPlain-comment_sep (c ∷ cs) = omega arith

  IsPlain-instruction_line : (m : ℕ) (i : api.SBInstruction) → IsPlain (instruction_line api m i)
  unfolding instruction_line
  IsPlain-instruction_line m i =
      IsPlain-append (pad_zero 8 _) _ (IsPlain-pad_zero 8 _ (IsPlain-hex true _)) (
        IsPlain-append (codes ": ") _ (omega arith) (
          IsPlain-append (pad_right (m * 3 + 2) _) _
            (IsPlain-pad_right (m * 3 + 2) _ (IsPlain-dump_of m i))
            (IsPlain-append (codes " ") _ (omega arith) (
              IsPlain-append (pad_right 6 _) _ (IsPlain-pad_right 6 _ (single.mnemonic i)) (
                IsPlain-append (codes " ") _ (omega arith) (
                  IsPlain-append (api.operands i) _ (single.operands i) (
                    IsPlain-append (comment_sep api (api.comment i)) _
                      (IsPlain-comment_sep (api.comment i)) (single.comment i))))))))

  IsPlain-mangled_suffix : (s : Text) → IsPlain s → IsPlain (mangled_suffix api s)
  IsPlain-mangled_suffix [] h = tt
  IsPlain-mangled_suffix (c ∷ cs) h =
      IsPlain-append (codes ", mangled name=") (c ∷ cs) (omega arith) h

  IsPlain-symbol_line : (a : api.SBAddress) → IsPlain (symbol_line api a)
  unfolding symbol_line
  IsPlain-symbol_line a =
      IsPlain-append (codes "; Symbol: ") _ (omega arith) (elim (Option-cases (api.symbol a)) [
        | inl missing ↦ rw missing (omega arith)
        | inr (s, found) ↦ rw found (
            IsPlain-append (api.display_name s) _ (single.display_name s)
              (IsPlain-mangled_suffix (api.mangled_name s) (single.mangled_name s)))
      ])

  IsPlain-source_line : (a : api.SBAddress) → IsPlain (source_line api a)
  unfolding source_line
  IsPlain-source_line a =
      IsPlain-append (codes "; Source: ") _ (omega arith) (elim (Option-cases (api.line_entry a)) [
        | inl missing ↦ rw missing (omega arith)
        | inr (le, found) ↦ rw found (
            IsPlain-append le.path _ (single.path a le found)
              (omega arith, IsPlain-decimal le.line))
      ])

  lines-instruction_lines :
      (m : ℕ) (is : List api.SBInstruction)
      → lines (instruction_lines api m is) ≡ map (instruction_line api m) is
  unfolding instruction_lines lines
  lines-instruction_lines m [] = refl
  lines-instruction_lines m (i ∷ is) =
      lines-append (instruction_line api m i) (instruction_lines api m is)
        (IsPlain-instruction_line m i)
      ∙ ap (◌∷◌ (instruction_line api m i)) (lines-instruction_lines m is)

  -- The text of a listing is the line of its symbol, the line of its source, and then a line for
  -- each instruction, in order, if what liblldb answers are single lines.
  pub lines-get_source_text :
      (d : DisassembledRange api) (m : ℕ)
      → lines (get_source_text api d m)
        ≡ symbol_line api d.start_addr
          ∷ source_line api d.start_addr
          ∷ map (instruction_line api m) d.instructions
  unfolding get_source_text
  lines-get_source_text d m =
      rw
        (
          lines-append _ _ (IsPlain-symbol_line d.start_addr),
          lines-append _ _ (IsPlain-source_line d.start_addr),
          lines-instruction_lines m d.instructions,
        )
        refl

  -- The line number that `line_num_by_address` gives for the address of an instruction is the line,
  -- counted from 1, on which the listing shows that instruction.
  pub listing_shows_address :
      (d : DisassembledRange api) (rest : List ℕ) (m i : ℕ) (instr : api.SBInstruction)
      → IsListing d rest
      → d.instruction_addresses ≡ map (λ j. api.load_address (api.address j)) d.instructions
      → get_elem? d.instructions i ≡ some instr
      → get_elem?
          (lines (get_source_text api d m))
          (line_num_by_address api d (api.load_address (api.address instr)) - 1)
        ≡ some (instruction_line api m instr)
  listing_shows_address d rest m i instr h e k =
      let a = api.load_address (api.address instr) in
      let at_i : get_elem? d.instruction_addresses i ≡ some a =
        rw e (get_elem?-map _ d.instructions i k) in
      let n = (line_of_position d rest i a h at_i).0 in
      let n' : line_num_by_address api d a - 1 ≡ suc (suc i) = omega (arith, n) in
      rw (n', lines-get_source_text d m) (get_elem?-map (instruction_line api m) d.instructions i k)
