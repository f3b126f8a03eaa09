-- ===== src/Codepin/Lawful.antt =====
-- The rules of tags that docker documents, for a daemon behind `Images`.
use bay.Prelude.{String, ◌≡◌, ◌≢◌, ◌⊎◌, some, string_eq, option_eq}
use bay.Prelude.Result.{ok}
use bay.Images.{split_ref}
use bay.Codepin.{Images, ref_of}

-- `r` is a way to write `repo:tag`.
abbrev pub Writes : String → String → String → Type 0
Writes repo tag r = (r ≡ ref_of repo tag) ⊎ (split_ref r ≡ (repo, some tag))

-- What docker documents of tags. A tag that is set resolves to what its source resolved to; a daemon
-- that refuses the tag leaves it. The other tags of the repository and the images stay, and an id
-- names its image.
pub record Lawful (I : Images) : Type 0 where
  pub set :
      (s t : I.State) (source target : String)
      → I.tag s source target ≡ (ok tt, t)
      → (I.image_id t target ≡ I.image_id s source) ⊎ (I.image_id t target ≡ I.image_id s target)
  pub others :
      (s t : I.State) (source repo a b r : String)
      → I.tag s source (ref_of repo b) ≡ (ok tt, t)
      → a ≢ b
      → Writes repo a r
      → I.image_id t r ≡ I.image_id s r
  pub ids :
      (s t : I.State) (source target id : String)
      → I.tag s source target ≡ (ok tt, t)
      → I.image_id s id ≡ some id
      → I.image_id t id ≡ some id
  pub pulls :
      (s : I.State) (repo a b r : String)
      → a ≢ b
      → Writes repo a r
      → I.image_id ((I.pull s (ref_of repo b)).1) r ≡ I.image_id s r
  pub named : (s : I.State) (r id : String) → I.image_id s r ≡ some id → I.image_id s id ≡ some id
  pub contained :
      (s : I.State) (name id : String)
      → I.container_image s name ≡ some id
      → I.image_id s id ≡ some id
  pub nonempty : (s : I.State) (r : String) → I.image_id s r ≢ some ""
