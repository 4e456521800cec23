-- ===== src/Startup/Translate.antt =====
-- Where the processor finds an address, by the two levels of tables that it reads when paging is on.
use aeon_486_os.Base.{ℕ, ◌+◌, ◌*◌, ◌/◌, ◌%◌, ◌^◌, ◌≤◌, ◌<◌}
use aeon_486_os.Base.{◌≡◌, ◌≢◌, refl, arith, ◌∙◌, ◌==◌, false}
use aeon_486_os.Base.{some, none, ok, fault, ap}
use aeon_486_os.Startup.{
  Words, Image, page_table_00000000, page_table_C0000000, behind_jump, point_to, translate,
  store_found, kernel_start_offset,
}
use aeon_486_os.Startup.Filled.{store_self, store_other}
use aeon_486_os.Startup.Tables.{HasTables}

module _ (words : Words) (cr3 va table : ℕ) where
  abbrev d : ℕ
  d = va / 2 ^ 22

  abbrev p : ℕ
  p = va / 4096 % 1024

  pub translate-some :
      (f flags : ℕ)
      → table % 4096 ≡ 0
      → words (cr3 + d * 4) ≡ table + 3
      → words (table + p * 4) ≡ f * 4096 + flags
      → flags < 4096
      → flags % 2 ≡ 1
      → translate words cr3 va ≡ some (f * 4096 + va % 4096)
  unfolding translate
  translate-some f flags aligned found entry small present =
      let frame : (table + 3) / 4096 * 4096 ≡ table = omega arith in
      let set1 : ((table + 3) % 2 == 0) ≡ false = ground arith in
      let set2 : ((f * 4096 + flags) % 2 == 0) ≡ false = ground arith in
      let frame' : (f * 4096 + flags) / 4096 * 4096 ≡ f * 4096 = omega arith in
      rw (found, frame, entry, set1, set2, frame') refl

  pub translate-no_page :
      table % 4096 ≡ 0
      → words (cr3 + d * 4) ≡ table + 3
      → words (table + p * 4) ≡ 0
      → translate words cr3 va ≡ none
  unfolding translate
  translate-no_page aligned found entry =
      let frame : (table + 3) / 4096 * 4096 ≡ table = omega arith in
      let set1 : ((table + 3) % 2 == 0) ≡ false = ground arith in
      rw (found, frame, entry, set1) refl

pub translate-no_table :
    (words : Words) (cr3 va : ℕ) → words (cr3 + va / 2 ^ 22 * 4) ≡ 0 → translate words cr3 va ≡ none
unfolding translate
translate-no_table words cr3 va nil = rw nil refl

-- The memory behind the exchange of the lowest table.
abbrev pub exchanged : Image → Words → Words
exchanged image words = point_to image 0 (page_table_00000000 image) words

pub behind_jump-exchanged :
    (image : Image) (words : Words)
    → translate words image.page_directory (image.page_directory + kernel_start_offset)
      ≡ some (image.page_directory + 0 * 4)
    → behind_jump image words ≡ ok (exchanged image words)
unfolding behind_jump store_found
behind_jump-exchanged image words mapped =
    ap (λ place. store_found words place (page_table_00000000 image + 1 + 2)) mapped

pub behind_jump_fault :
    (image : Image) (words : Words)
    → translate words image.page_directory (image.page_directory + kernel_start_offset) ≡ none
    → behind_jump image words ≡ fault
unfolding behind_jump store_found
behind_jump_fault image words missing =
    ap (λ place. store_found words place (page_table_00000000 image + 1 + 2)) missing

-- The jump exchanges the table of the lowest addresses.
pub HasTables-jump :
    (image : Image) (before after : Words) (low identity kernel : ℕ)
    → kernel ≤ 1023
    → HasTables image before after low identity kernel
    → HasTables image before (exchanged image after) (page_table_00000000 image) identity kernel
HasTables-jump image before after low identity kernel few has =
    let kept = λ (x : ℕ) (h : x ≢ image.page_directory + 0 * 4).
      store_other after (image.page_directory + 0 * 4) (page_table_00000000 image + 1 + 2) x h in
    record {
      lowest = λ k h. kept (page_table_00000000 image + k * 4) (omega arith) ∙ has.lowest k h;
      upper = λ k h h'. kept (page_table_C0000000 image + k * 4) (omega arith) ∙ has.upper k h h';
      screen = kept (page_table_C0000000 image + 1023 * 4) (omega arith) ∙ has.screen;
      directory_0 =
          store_self after (image.page_directory + 0 * 4) (page_table_00000000 image + 1 + 2)
          ∙ omega arith;
      directory_768 = kept (image.page_directory + 768 * 4) (omega arith) ∙ has.directory_768;
      directory_769 = kept (image.page_directory + 769 * 4) (omega arith) ∙ has.directory_769;
      directory_770 = kept (image.page_directory + 770 * 4) (omega arith) ∙ has.directory_770;
      others = λ x a b s d0 d1 d2 d3. kept x d0 ∙ has.others x a b s d0 d1 d2 d3;
    }
