-- ===== src/Disassembly/Tests.antt =====
-- Runs and instances, over a target with one function of three instructions at address 100.
use vscode_lldb.Common.{
  ℕ, ◌+◌, ◌≡◌, refl, ◌&&◌, none, some, [], ◌∷◌, arith, ltb, leb, if◌then◌else◌,
}
use vscode_lldb.Common.Text.{codes, pad_zero, hex, pad_right}
use vscode_lldb.Common.Map.{get, insert}
use vscode_lldb.Common.Outcome.{ok}
use vscode_lldb.Disassembly.{
  DisasmApi, DisassembledRange, Ranges, new, contains, range_of, range_name, find_by_address,
  find_by_handle, add, locate, from_address,
}
use vscode_lldb.Disassembly.Handles.{HandlesInOrder, Served, from_address-Served}
use vscode_lldb.Disassembly.Lines.{IsListing}
use vscode_lldb.Disassembly.Listing.{SingleLines, instruction_line}
use vscode_lldb.Disassembly.Lookup.{IsLaidOut, find_by_address-add}

abbrev pub target : DisasmApi
target = record {
  SBAddress = ℕ;
  SBSymbol = Unit;
  SBInstruction = ℕ;
  from_load_address = λ a. a;
  load_address = λ a. a;
  symbol = λ a. if leb 100 a && ltb a 112 then some tt else none;
  line_entry = λ a. none;
  start_address = λ s. 100;
  end_address = λ s. 112;
  symbol_instructions = λ s. 100 ∷ 104 ∷ 108 ∷ [];
  name = λ s. codes "main";
  display_name = λ s. codes "main";
  mangled_name = λ s. [];
  read_instructions = λ a n. a ∷ (a + 4) ∷ [];
  address = λ i. i;
  byte_size = λ i. 4;
  raw_data = λ i. some (1 ∷ 2 ∷ 3 ∷ 4 ∷ []);
  mnemonic = λ i. codes "nop";
  operands = λ i. [];
  comment = λ i. [];
}

abbrev pub main_range : DisassembledRange target
main_range = record {
  handle = 1000;
  start_addr = 100;
  load_range = record { start = 100; end = 112 };
  source_name = codes "@main";
  instructions = 100 ∷ 104 ∷ 108 ∷ [];
  instruction_addresses = 100 ∷ 104 ∷ 108 ∷ [];
}

abbrev pub registered : Ranges target
registered = record { by_handle = (1000, main_range) ∷ []; by_address = main_range ∷ [] }

first_request : from_address target (new target) 105 ≡ (ok main_range, registered)
unfolding from_address find_by_address locate add range_name insert
first_request = refl

pub main-IsListing : IsListing main_range (104 ∷ 108 ∷ [])
main-IsListing = record { first = refl; ascending = omega arith; fits = omega arith }

find_by_address-add_example :
    IsLaidOut (add target registered 200 208 (200 ∷ 204 ∷ [])).1.by_address
    × ((a : ℕ)
        → find_by_address target (add target registered 200 208 (200 ∷ 204 ∷ [])).1 a ≡ (
            if contains (range_of target 200 208) a
            then some (add target registered 200 208 (200 ∷ 204 ∷ [])).0
            else find_by_address target registered a))
find_by_address-add_example =
    find_by_address-add {api = target} registered 200 208 (200 ∷ 204 ∷ [])
      (record { nonempty = omega arith }, tt, tt) (omega arith) (omega arith)

pub new-HandlesInOrder : HandlesInOrder (new target)
unfolding find_by_handle get
new-HandlesInOrder = record { below = λ h d k. cc; carried = λ h d k. cc; registered = tt }

from_address-Served_example : Served (new target) (from_address target (new target) 105)
from_address-Served_example = from_address-Served (new target) 105 new-HandlesInOrder

target-SingleLines : SingleLines target
target-SingleLines = record {
  mnemonic = λ i. omega arith;
  operands = λ i. tt;
  comment = λ i. tt;
  display_name = λ s. omega arith;
  mangled_name = λ s. tt;
  path = λ a le h. cc;
}

second_line : instruction_line target 2 104 ≡ codes "00000068: 01 02 >  nop    "
unfolding instruction_line pad_zero hex pad_right
second_line = refl
