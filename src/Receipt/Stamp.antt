-- ===== src/Receipt/Stamp.antt =====
-- A stamp changes the fields of a webhook build and nothing else.
use mathlib.Core.Path.{subst}
use bay.Prelude.{
  not_true, String, false, ◌≡◌, ◌≢◌, refl, Option, none, some, sym, ◌∙◌, ◌==◌, string_eq,
}
use bay.Prelude.Assoc.{Assoc, lookup, insert, lookup-insert}
use bay.Json.{Value, text, null}
use bay.Receipt.{keep_by, keep_reference, stamp_row, commit_or_none, of_option}

untouched :
    (k j : String) (v : Value) (d : Assoc Value)
    → (k == j) ≡ false
    → lookup j (insert k v d) ≡ lookup j d
untouched k j v d e = lookup-insert k j v d ∙ rw e refl

keep_by-other :
    (j : String) (reference image : Option Value) (row : Assoc Value)
    → ("image_ref" == j) ≡ false
    → lookup j (keep_by reference image row) ≡ lookup j row
keep_by-other j (some v) image row e = refl
keep_by-other j none (some v) row e = untouched "image_ref" j v row e
keep_by-other j none none row e = untouched "image_ref" j null row e

keep_reference-other :
    (j : String) (row : Assoc Value)
    → ("image_ref" == j) ≡ false
    → lookup j (keep_reference row) ≡ lookup j row
unfolding keep_reference
keep_reference-other j row e = keep_by-other j (lookup "image_ref" row) (lookup "image" row) row e

-- The reference of a row after a stamp, by the reference and the image before it.
abbrev pub Referred : (before image after : Option Value) → Type 0
Referred (some v) image after = after ≡ some v
Referred none (some v) after = after ≡ some v
Referred none none after = after ≡ some null

keep_by-Referred :
    (reference image : Option Value) (row : Assoc Value)
    → lookup "image_ref" row ≡ reference
    → Referred reference image (lookup "image_ref" (keep_by reference image row))
keep_by-Referred (some v) image row e = e
keep_by-Referred none (some v) row e = lookup-insert "image_ref" "image_ref" v row
keep_by-Referred none none row e = lookup-insert "image_ref" "image_ref" null row

differs : (key other : String) → key ≢ other → (other == key) ≡ false
differs key other ne = not_true (other == key) (λ e. ne (sym ((string_eq.test_iff other key).0 e)))

-- A stamped row has the new image and the short commit, if the commit is one. Its reference is the one
-- it had, and for a row without one the image it had, or null if it had none. Every field but the
-- image, its reference and the three fields of the commit is as before.
pub stamp_row_lem :
    (commit : Option String) (image : String) (row : Assoc Value)
    → (lookup "image" (stamp_row commit image row) ≡ some (text image))
      × (lookup "commit" (stamp_row commit image row) ≡ some (commit_or_none (of_option commit)))
      × Referred
          (lookup "image_ref" row)
          (lookup "image" row)
          (lookup "image_ref" (stamp_row commit image row))
      × ((key : String)
          → key ≢ "image"
          → key ≢ "image_ref"
          → key ≢ "commit"
          → key ≢ "commit_source"
          → key ≢ "commit_tags"
          → lookup key (stamp_row commit image row) ≡ lookup key row)
unfolding stamp_row keep_reference
stamp_row_lem commit image row = (
  untouched "commit_tags" "image" _ _ refl
      ∙ untouched "commit_source" "image" _ _ refl
      ∙ untouched "commit" "image" _ _ refl
      ∙ lookup-insert "image" "image" (text image) (keep_reference row),
  untouched "commit_tags" "commit" _ _ refl
      ∙ untouched "commit_source" "commit" _ _ refl
      ∙ lookup-insert "commit" "commit" (commit_or_none (of_option commit)) _,
  subst (Referred (lookup "image_ref" row) (lookup "image" row))
      (sym (
        untouched "commit_tags" "image_ref" _ _ refl
        ∙ untouched "commit_source" "image_ref" _ _ refl
        ∙ untouched "commit" "image_ref" _ _ refl
        ∙ untouched "image" "image_ref" _ _ refl))
      (keep_by-Referred (lookup "image_ref" row) (lookup "image" row) row refl),
  λ key i r c s t.
      untouched "commit_tags" key _ _ (differs key _ t)
      ∙ untouched "commit_source" key _ _ (differs key _ s)
      ∙ untouched "commit" key _ _ (differs key _ c)
      ∙ untouched "image" key _ _ (differs key _ i)
      ∙ keep_reference-other key row (differs key _ r),
)
