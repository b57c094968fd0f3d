-- ===== src/Connections/Connect/Shortcuts.antt =====
-- features/contexts/ConnectionsScreen.tsx: the shortcut that a card shows, and the key that is pressed.
use Prim.Native.String as Str
use klustr.Prelude.{
  ℕ, zero, suc, ◌+◌, ◌<◌, ◌≡◌, refl, sym, ◌∙◌, Bool, true, false, ◌||◌, Option, none, some, List,
  [], ◌∷◌, ◌++◌, arith, if◌then◌else◌, get_elem?, length,
}
use klustr.Prelude.Numerals.{decimal}
use klustr.Collation.{Collation}
use klustr.Ui.State.{World}
use klustr.Ui.Contexts.{set_selected_context}
use klustr.Connections.Defs.{ContextInfo}
use klustr.Connections.Sections.{GroupedSection, ordered_visible}
use klustr.Connections.Connect.{
  on_key, text_lt, Card, shortcut_hint, item_cards, base_index, section_cards,
}
use klustr.Prelude.Numerals.RoundTrip.{parse_int-decimal}

item_cards-append :
    (mac : Bool) (k : ℕ) (xs ys : List ContextInfo)
    → item_cards mac k (xs ++ ys) ≡ item_cards mac k xs ++ item_cards mac (k + length xs) ys
unfolding item_cards
item_cards-append mac k [] ys = ground arith
item_cards-append mac k (x ∷ xs) ys = ground (arith, item_cards-append mac (k + 1) xs ys)

base_index-append :
    (acc : ℕ) (before : List GroupedSection) (s : GroupedSection)
    → base_index acc (before ++ s ∷ []) ≡ base_index acc before + length s.items
unfolding base_index
base_index-append acc [] s = refl
base_index-append acc (b ∷ before) s = base_index-append (acc + length b.items) before s

section_cards-eq-item_cards :
    (mac : Bool) (before ss : List GroupedSection)
    → section_cards mac before ss ≡ item_cards mac (base_index 0 before) (ordered_visible ss)
unfolding section_cards ordered_visible item_cards
section_cards-eq-item_cards mac before [] = refl
section_cards-eq-item_cards mac before (s ∷ ss) = cc (
  section_cards-eq-item_cards mac (before ++ s ∷ []) ss,
  base_index-append 0 before s,
  item_cards-append mac (base_index 0 before) s.items (ordered_visible ss),
)

abbrev card_at : Bool → ℕ → Option ContextInfo → Option Card
card_at mac i none = none
card_at mac i (some c) = some (record { context = c; shortcut = shortcut_hint mac i })

get_elem?-item_cards :
    (mac : Bool) (k i : ℕ) (cs : List ContextInfo)
    → get_elem? (item_cards mac k cs) i ≡ card_at mac (k + i) (get_elem? cs i)
unfolding item_cards
get_elem?-item_cards mac k i [] = refl
get_elem?-item_cards mac k zero (c ∷ cs) = ground arith
get_elem?-item_cards mac k (suc i) (c ∷ cs) = ground (arith, get_elem?-item_cards mac (k + 1) i cs)

get_elem?-section_cards :
    (mac : Bool) (ss : List GroupedSection) (i : ℕ)
    → get_elem? (section_cards mac [] ss) i ≡ card_at mac i (get_elem? (ordered_visible ss) i)
unfolding base_index
get_elem?-section_cards mac ss i = ground (
  arith,
  section_cards-eq-item_cards mac [] ss,
  get_elem?-item_cards mac 0 i (ordered_visible ss),
)

-- The keys that the listener lets through.
abbrev IsDigitKey : ℕ → Type 0
IsDigitKey i = (text_lt (decimal (suc i)) "1" ≡ false) × (text_lt "9" (decimal (suc i)) ≡ false)

digit_key : (i : ℕ) → i < 9 → IsDigitKey i
unfolding decimal
digit_key zero h = (refl, refl)
digit_key (suc zero) h = (refl, refl)
digit_key (suc (suc zero)) h = (refl, refl)
digit_key (suc (suc (suc zero))) h = (refl, refl)
digit_key (suc (suc (suc (suc zero)))) h = (refl, refl)
digit_key (suc (suc (suc (suc (suc zero))))) h = (refl, refl)
digit_key (suc (suc (suc (suc (suc (suc zero)))))) h = (refl, refl)
digit_key (suc (suc (suc (suc (suc (suc (suc zero))))))) h = (refl, refl)
digit_key (suc (suc (suc (suc (suc (suc (suc (suc zero)))))))) h = (refl, refl)
digit_key (suc (suc (suc (suc (suc (suc (suc (suc (suc i))))))))) h = absurd (omega arith)

module _ (coll : Collation) (now : ℕ) (mac : Bool) where
  -- The card at one of the first nine places of the list carries the hint with the number of its
  -- place, and pressing that number with the meta or the control key selects the card's context.
  pub on_key-section_cards :
      (ss : List GroupedSection) (i : ℕ) (card : Card) (meta ctrl : Bool) (w : World)
      → i < 9
      → get_elem? (section_cards mac [] ss) i ≡ some card
      → (meta || ctrl) ≡ true
      → (card.shortcut ≡ some (Str.◌++◌ (if mac then "⌘" else "Ctrl") (decimal (suc i))))
        × (on_key coll now (ordered_visible ss) meta ctrl (decimal (suc i)) w
            ≡ set_selected_context coll now (some card.context.name) w)
  unfolding on_key shortcut_hint
  on_key-section_cards ss i card meta ctrl w small at modified =
      go (get_elem? (ordered_visible ss) i) refl (sym (get_elem?-section_cards mac ss i) ∙ at)
    where
      go :
          (o : Option ContextInfo) (e : get_elem? (ordered_visible ss) i ≡ o)
          (shown : card_at mac i o ≡ some card)
          → (card.shortcut ≡ some (Str.◌++◌ (if mac then "⌘" else "Ctrl") (decimal (suc i))))
            × (on_key coll now (ordered_visible ss) meta ctrl (decimal (suc i)) w
                ≡ set_selected_context coll now (some card.context.name) w)
      go none e shown = absurd (cc)
      go (some c) e shown =
          let same : record { context = c; shortcut = shortcut_hint mac i } ≡ card = cc in
          rw (← same) (ground arith, ground (arith, digit_key i small, parse_int-decimal (suc i)))
