-- ===== src/Pipeline/World/Files.antt =====
-- Reading behind the writes of files (src/pipeline/file-writer.ts and the closure of execute.ts).
use vault_engine.Base.{
  ℕ, Text, Bool, true, false, Option, none, some, ◌≡◌, refl, ap, ◌∙◌, if◌then◌else◌, ◌==◌, eq_refl,
}
use vault_engine.Base.Dict
use vault_engine.Base.Dict.{Dict, get-set, get-delete}
use vault_engine.Pipeline.World.{
  Env, File, Rollback, content_or_none, read_file_or_null, atomic_write_file, restore_content,
  has_hash, roll_back,
}

if-content :
    (b : Bool) (o p : Option File)
    → content_or_none (if b then o else p) ≡ (if b then content_or_none o else content_or_none p)
if-content true o p = refl
if-content false o p = refl

pub read-atomic_write_file :
    (now : ℕ) (files : Dict File) (path content : Text) (q : Text)
    → read_file_or_null (atomic_write_file now files path content) q
      ≡ (if path == q then some content else read_file_or_null files q)
unfolding read_file_or_null atomic_write_file
read-atomic_write_file now files path content q =
    ap (λ o. content_or_none o) (get-set files path q (record { content = content; mtime = now }))
    ∙ if-content (path == q) (some (record { content = content; mtime = now })) (Dict.get files q)

read-restore_content :
    (now : ℕ) (files : Dict File) (path : Text) (o : Option Text) (q : Text)
    → read_file_or_null (restore_content now files path o) q
      ≡ (if path == q then o else read_file_or_null files q)
unfolding restore_content read_file_or_null
read-restore_content now files path none q =
    ap (λ o. content_or_none o) (get-delete files path q)
    ∙ if-content (path == q) none (Dict.get files q)
read-restore_content now files path (some content) q =
    read-atomic_write_file now files path content q

-- A file that still has the content that was written gets the one before; the others stay.
pub read-roll_back :
    (env : Env) (r : Rollback) (files : Dict File) (content : Text) (q : Text)
    → read_file_or_null files r.path ≡ some content
    → env.sha256 content ≡ r.rendered_hash
    → read_file_or_null (roll_back env r files) q
      ≡ (if r.path == q then r.previous else read_file_or_null files q)
unfolding roll_back has_hash
read-roll_back env r files content q at_content same =
    let found : has_hash env.sha256 r.rendered_hash (read_file_or_null files r.path) ≡ true =
      ap (λ o. has_hash env.sha256 r.rendered_hash o) at_content
      ∙ ap (λ h. h == r.rendered_hash) same
      ∙ eq_refl r.rendered_hash in
    ap
      (λ b.
        read_file_or_null
          (if b then restore_content env.clock.now files r.path r.previous else files) q)
      found
    ∙ read-restore_content env.clock.now files r.path r.previous q
