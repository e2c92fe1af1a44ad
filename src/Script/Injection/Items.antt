-- ===== src/Script/Injection/Items.antt =====
-- The list of injections behind `setScriptInjection` of src/script_client.cpp.
use ur_rtde_fork_custom.Base.{
  ℕ, ◌≡◌, refl, sym, ap, ◌∙◌, Bool, true, false, List, [], ◌∷◌, Option, none, some, if◌then◌else◌,
  same_text, same_text-eq, same_text_refl,
}
use mathlib.Core.Bool.{true≢false}
use ur_rtde_fork_custom.Script.Injection.{ScriptInjectItem, set_script_injection}

-- The code injected behind a text.
abbrev pub injection : List ℕ → List ScriptInjectItem → Option (List ℕ)
injection text [] = none
injection text (item ∷ items) =
    if same_text text item.search_string then some item.inject_string else injection text items

abbrev pub Absent : List ℕ → List ScriptInjectItem → Type 0
Absent text [] = Unit
Absent text (item ∷ items) = (same_text text item.search_string ≡ false) × Absent text items

-- No search string stands in the list twice.
abbrev pub AreDistinct : List ScriptInjectItem → Type 0
AreDistinct [] = Unit
AreDistinct (item ∷ items) = Absent item.search_string items × AreDistinct items

-- One step of `setScriptInjection`, with the result for the other items.
abbrev put :
    Bool
    → List ℕ
    → ScriptInjectItem
    → List ScriptInjectItem
    → List ScriptInjectItem
    → List ScriptInjectItem
put known inject item items later =
    if known then record item { inject_string = inject } ∷ items else item ∷ later

put-Absent :
    (known : Bool) (text inject : List ℕ) (item : ScriptInjectItem)
    (items later : List ScriptInjectItem)
    → Absent text (item ∷ items)
    → Absent text later
    → Absent text (put known inject item items later)
put-Absent true text inject item items later h k = h
put-Absent false text inject item items later h k = (h.0, k)

set_script_injection-Absent :
    (text search inject : List ℕ) (items : List ScriptInjectItem)
    → same_text text search ≡ false
    → Absent text items
    → Absent text (set_script_injection search inject items)
unfolding set_script_injection
set_script_injection-Absent text search inject [] e h = (e, tt)
set_script_injection-Absent text search inject (item ∷ items) e h =
    put-Absent (same_text search item.search_string) text inject item items _ h
      (set_script_injection-Absent text search inject items e h.1)

same_text_sym : (s t : List ℕ) → same_text s t ≡ false → same_text t s ≡ false
same_text_sym s t h = swapped (same_text t s) refl
  where
    swapped : (b : Bool) → same_text t s ≡ b → b ≡ false
    swapped true e =
        absurd
          (true≢false (sym (same_text_refl s) ∙ ap (same_text s) (sym (same_text-eq t s e)) ∙ h))
    swapped false e = refl

put-AreDistinct :
    (known : Bool) (search inject : List ℕ) (item : ScriptInjectItem)
    (items : List ScriptInjectItem)
    → same_text search item.search_string ≡ known
    → AreDistinct (item ∷ items)
    → AreDistinct (set_script_injection search inject items)
    → AreDistinct (put known inject item items (set_script_injection search inject items))
put-AreDistinct true search inject item items e h k = h
put-AreDistinct false search inject item items e h k = (
  set_script_injection-Absent item.search_string search inject items
      (same_text_sym search item.search_string e) h.0,
  k,
)

set_script_injection-AreDistinct :
    (search inject : List ℕ) (items : List ScriptInjectItem)
    → AreDistinct items
    → AreDistinct (set_script_injection search inject items)
unfolding set_script_injection
set_script_injection-AreDistinct search inject [] h = (tt, tt)
set_script_injection-AreDistinct search inject (item ∷ items) h =
    put-AreDistinct (same_text search item.search_string) search inject item items refl h
      (set_script_injection-AreDistinct search inject items h.1)

put-injection :
    (known asked : Bool) (text search inject : List ℕ) (item : ScriptInjectItem)
    (items later : List ScriptInjectItem)
    → same_text search item.search_string ≡ known
    → same_text text search ≡ asked
    → injection text later ≡ (if asked then some inject else injection text items)
    → injection text (put known inject item items later)
      ≡ (if asked then some inject else injection text (item ∷ items))
put-injection true true text search inject item items later e f h =
    let same : same_text text item.search_string ≡ true =
      ap (same_text text) (sym (same_text-eq search item.search_string e)) ∙ f in
    rw same refl
put-injection true false text search inject item items later e f h =
    let same : same_text text item.search_string ≡ false =
      ap (same_text text) (sym (same_text-eq search item.search_string e)) ∙ f in
    rw same refl
put-injection false true text search inject item items later e f h =
    let other : same_text text item.search_string ≡ false =
      ap (λ s. same_text s item.search_string) (same_text-eq text search f) ∙ e in
    rw other h
put-injection false false text search inject item items later e f h =
    ap
      (λ (r : Option (List ℕ)).
        if same_text text item.search_string then some item.inject_string else r)
      h

set_script_injection-injection :
    (text search inject : List ℕ) (items : List ScriptInjectItem)
    → injection text (set_script_injection search inject items)
      ≡ (if same_text text search then some inject else injection text items)
unfolding set_script_injection
set_script_injection-injection text search inject [] = refl
set_script_injection-injection text search inject (item ∷ items) =
    put-injection (same_text search item.search_string) (same_text text search) text search inject
      item items _ refl refl (set_script_injection-injection text search inject items)

-- `setScriptInjection` keeps the search strings distinct, and the code for a text is the new one for the
-- given search string and the old one for every other text.
pub set_script_injection_lem :
    (search inject : List ℕ) (items : List ScriptInjectItem)
    → AreDistinct items
    → AreDistinct (set_script_injection search inject items)
      × ((text : List ℕ)
          → injection text (set_script_injection search inject items)
            ≡ (if same_text text search then some inject else injection text items))
set_script_injection_lem search inject items h = (
  set_script_injection-AreDistinct search inject items h,
  λ text. set_script_injection-injection text search inject items,
)
