-- ===== src/Install/Fetch/Layers.antt =====
-- Whose files a package definition is made of, when several repositories have the package.
use mantl_api.Prelude.{
  String, ◌≡◌, refl, ◌∙◌, ap, ◌==◌, false, Option, none, some, List, [], ◌∷◌, ◌++◌, map,
  if◌then◌else◌,
}
use mathlib.Core.Option.{get_or}
use mantl_api.Prelude.Lists.{All}
use mantl_api.Prelude.Slash.{path_join}
use mantl_api.Prelude.Outcome.{Result, ok}
use mantl_api.Consul.{Consul}
use mantl_api.Install.Repository.{Repository}
use mantl_api.Install.Fetch.{
  Texts, no_texts, newer, overlay, text_or_empty, definition_file, read_files, definition_key, load,
  load_all,
}

-- the last text of a list that is not empty, or a given one
abbrev pub last_filled : List String → String → String
last_filled [] old = old
last_filled (t ∷ ts) old = last_filled ts (if t == "" then old else t)

-- the six files, each by itself
abbrev pub layered : List Texts → Texts → Texts
layered found old = record {
  command = last_filled (map (λ t. t.command) found) old.command;
  config = last_filled (map (λ t. t.config) found) old.config;
  marathon = last_filled (map (λ t. t.marathon) found) old.marathon;
  metadata = last_filled (map (λ t. t.metadata) found) old.metadata;
  options = last_filled (map (λ t. t.options) found) old.options;
  uninstall = last_filled (map (λ t. t.uninstall) found) old.uninstall;
}

-- the files of a definition, their names, and their texts
pub data File : Type 0 where
  command config marathon metadata options uninstall : File

abbrev pub name_of : File → String
name_of command = "command.json"
name_of config = "config.json"
name_of marathon = "marathon.json"
name_of metadata = "package.json"
name_of options = "mantl.json"
name_of uninstall = "uninstall.json"

abbrev pub text_of : File → Texts → String
text_of command t = t.command
text_of config t = t.config
text_of marathon t = t.marathon
text_of metadata t = t.metadata
text_of options t = t.options
text_of uninstall t = t.uninstall

text_of-layered :
    (f : File) (found : List Texts) (old : Texts)
    → text_of f (layered found old) ≡ last_filled (map (text_of f) found) (text_of f old)
text_of-layered command found old = refl
text_of-layered config found old = refl
text_of-layered marathon found old = refl
text_of-layered metadata found old = refl
text_of-layered options found old = refl
text_of-layered uninstall found old = refl

last_filled-empty :
    {A : Type 0} (text : A → String) (rs : List A) (old : String)
    → All (λ r. text r ≡ "") rs
    → last_filled (map text rs) old ≡ old
last_filled-empty text [] old h = refl
last_filled-empty text (r ∷ rs) old h = rw h.0 (last_filled-empty text rs old h.1)

last_filled-last :
    {A : Type 0} (text : A → String) (front : List A) (r : A) (back : List A) (old : String)
    → (text r == "") ≡ false
    → All (λ s. text s ≡ "") back
    → last_filled (map text (front ++ r ∷ back)) old ≡ text r
last_filled-last text [] r back old filled empty =
    rw (filled, last_filled) (last_filled-empty text back (text r) empty)
last_filled-last text (s ∷ front) r back old filled empty =
    last_filled-last text front r back (if text s == "" then old else text s) filled empty

module _ {W : Type 0} (consul : Consul W) (w : W) (contents : String → Option String)
    (version_key : String) where
  -- the text of a file of a repository, empty if it is not there
  abbrev pub text_in : File → Repository → String
  text_in f r =
      get_or (contents (path_join (definition_key consul r version_key ∷ name_of f ∷ []))) ""

  abbrev texts_of : Repository → Texts
  texts_of r = record {
    command = text_in command r;
    config = text_in config r;
    marathon = text_in marathon r;
    metadata = text_in metadata r;
    options = text_in options r;
    uninstall = text_in uninstall r;
  }

  text_of-texts_of : (f : File) (r : Repository) → text_of f (texts_of r) ≡ text_in f r
  text_of-texts_of command r = refl
  text_of-texts_of config r = refl
  text_of-texts_of marathon r = refl
  text_of-texts_of metadata r = refl
  text_of-texts_of options r = refl
  text_of-texts_of uninstall r = refl

  text_of-map :
      (f : File) (rs : List Repository) → map (text_of f) (map texts_of rs) ≡ map (text_in f) rs
  text_of-map f [] = refl
  text_of-map f (r ∷ rs) = rw (text_of-texts_of f r, text_of-map f rs) refl

  -- Consul answers a read with what it holds, and is left as it was.
  abbrev pub Answers : Type 0
  Answers = (key : String) → consul.get key w ≡ (ok (contents key), w)

  definition_file-text :
      (name key : String)
      → Answers
      → definition_file consul name key w
        ≡ (ok (get_or (contents (path_join (key ∷ name ∷ []))) ""), w)
  unfolding definition_file
  definition_file-text name key a =
      rw (a (path_join (key ∷ name ∷ []))) (go (contents (path_join (key ∷ name ∷ []))))
    where
      go :
          (o : Option String)
          → Path (Result String × W) (ok (text_or_empty o), w) (ok (get_or o ""), w)
      go none = refl
      go (some t) = refl

  load-layered :
      (rs : List Repository) (old : Texts)
      → Answers
      → load consul rs version_key old w ≡ (ok (layered (map texts_of rs) old), w)
  unfolding load overlay newer read_files
  load-layered [] old a = refl
  load-layered (r ∷ rs) old a =
      rw
        (
          definition_file-text "command.json" (definition_key consul r version_key) a,
          definition_file-text "config.json" (definition_key consul r version_key) a,
          definition_file-text "marathon.json" (definition_key consul r version_key) a,
          definition_file-text "package.json" (definition_key consul r version_key) a,
          definition_file-text "mantl.json" (definition_key consul r version_key) a,
          definition_file-text "uninstall.json" (definition_key consul r version_key) a,
        )
        (load-layered rs (overlay (texts_of r) old) a)

  -- While Consul answers reads and is left as it was by them: of the repositories in the order in
  -- which they are loaded, the last that has a file of the version gives it to the definition,
  -- each of the six files by itself, so that a file that `r` holds and no later repository does is
  -- the one that is loaded. The load succeeds and leaves Consul as it was.
  pub load_all-last :
      (front : List Repository) (r : Repository) (back : List Repository) (f : File)
      → Answers
      → (text_in f r == "") ≡ false
      → All (λ s. text_in f s ≡ "") back
      → (texts : Texts) × (load_all consul (front ++ r ∷ back) (ok version_key) w ≡ (ok texts, w))
        × (text_of f texts ≡ text_in f r)
  unfolding load_all
  load_all-last front r back f a filled empty = (
    layered (map texts_of (front ++ r ∷ back)) no_texts,
    loaded front,
    text_of-layered f (map texts_of (front ++ r ∷ back)) no_texts
        ∙ (ap (λ ts. last_filled ts (text_of f no_texts)) (text_of-map f (front ++ r ∷ back))
            ∙ last_filled-last (text_in f) front r back (text_of f no_texts) filled empty),
  )
    where
      loaded :
          (fr : List Repository)
          → load_all consul (fr ++ r ∷ back) (ok version_key) w
            ≡ (ok (layered (map texts_of (fr ++ r ∷ back)) no_texts), w)
      loaded [] = load-layered (r ∷ back) no_texts a
      loaded (x ∷ xs) = load-layered (x ∷ (xs ++ r ∷ back)) no_texts a
