-- ===== src/Env/Tests.antt =====
-- The masks and the listing at concrete chips and outputs.
use org_muhkuh_tools_flasher.Common.{true, false, ◌≡◌, refl, none, some, List, [], ◌∷◌, arith, All}
use org_muhkuh_tools_flasher.Common.Words.{Word, codes, join_words, Without}
use org_muhkuh_tools_flasher.Jasonixer.{Chip, number}
use org_muhkuh_tools_flasher.Env.Masks.{Mask, absent, list, apply_masks}
use org_muhkuh_tools_flasher.Env.Masks.Filter.{keeps, keep_all, apply_masks-keep_all}
use org_muhkuh_tools_flasher.Env.Identify.{Flasher, identify_connected_netx}
use org_muhkuh_tools_flasher.Env.Identify.Touched.{identify_connected_netx-Keeps}
use org_muhkuh_tools_flasher.Env.Ports.{newline, retrieve_ports}
use org_muhkuh_tools_flasher.Env.Ports.Listing.{Output, IsOutput, lines_of, retrieve_ports-lines}
use org_muhkuh_tools_flasher.Env.Ports.Lines.{Interface, IsInterface, show, chips_of}

abbrev chip : Word → Chip
chip port = record {
  type_number = number 0;
  flasher_name = codes "x";
  port = port;
  chip_name = [];
  type_name = [];
  type_identifier = [];
  interfaces = [];
  it = none;
}

abbrev chips : List Chip
chips = chip (codes "uart_1") ∷ chip (codes "jtag_1") ∷ chip (codes "eth_1") ∷ []

masked :
    apply_masks chips (list (codes "eth" ∷ [])) (list (codes "jtag" ∷ codes "eth" ∷ []))
    ≡ some (chip (codes "jtag_1") ∷ [])
unfolding apply_masks
masked = refl

apply_masks-keep_all_example :
    apply_masks chips (list (codes "eth" ∷ [])) absent
    ≡ some (keep_all (keeps (list (codes "eth" ∷ [])) absent) chips)
apply_masks-keep_all_example = apply_masks-keep_all chips (list (codes "eth" ∷ [])) absent refl refl

abbrev usb : Interface
usb = record {
  index = codes "1";
  port = codes "romloader_usb_01_07";
  blanks = codes "   ";
  type = codes "romloader_usb";
}

abbrev output : Output
output = record {
  pre = codes "hello" ∷ [];
  start = codes "START LIST NOT USED INTERFACES (1 Interfaces found)";
  gap = [];
  interfaces = usb ∷ [];
  gap' = [];
  stop = codes "END LIST INTERFACES";
  post = [] ∷ [];
}

usb-IsInterface : IsInterface usb
usb-IsInterface = record {
  digits = (refl, tt);
  port_chars = ground arith;
  space = ground arith;
  word_chars = ground arith;
}

output-IsOutput : IsOutput output
unfolding show
output-IsOutput = record {
  plain_pre = (record { no_start = refl; no_end = refl }, tt);
  starts = refl;
  starts_only = refl;
  plain_list = (
    record { no_start = refl; no_end = refl },
    (record { no_start = refl; no_end = refl }, (record { no_start = refl; no_end = refl }, tt)),
  );
  stops = refl;
  stops_only = refl;
  plain_post = (record { no_start = refl; no_end = refl }, tt);
  valid = (usb-IsInterface, tt);
}

output-Without : All (Without newline) (lines_of output)
unfolding lines_of show
output-Without = ground arith

retrieve_ports-lines_example :
    retrieve_ports (join_words newline (lines_of output)) ≡ chips_of (usb ∷ [])
retrieve_ports-lines_example = retrieve_ports-lines output output-IsOutput output-Without

-- A flasher that lists one port and remembers on which chips it ran.
abbrev flasher : Flasher (List Chip)
flasher = record {
  list_interfaces = λ touched.
      (some (record { failed = false; stdout = join_words newline (lines_of output) }), touched);
  detect_netx = λ c touched.
      (some (record { failed = false; stdout = codes "Chip type: (14) netX90" }), c ∷ touched);
}

abbrev usb_only : Mask
usb_only = list (codes "usb" ∷ [])

identify_connected_netx-Keeps_example :
    All (λ c. keeps absent usb_only c ≡ true) (identify_connected_netx flasher usb_only absent []).1
identify_connected_netx-Keeps_example =
    identify_connected_netx-Keeps flasher (All (λ c. keeps absent usb_only c ≡ true)) absent
      usb_only (λ w h. h) (λ c k w h. (k, h)) [] tt
