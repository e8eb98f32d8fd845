-- ===== src/Fs/Nodes/Times.antt =====
-- Config.ReadAll of internal/fs/fs.go and the times of reads that Config.Attr reports.
use configfs.Prelude.{
  ℕ, Bool-cases, ◌≡◌, refl, ◌∙◌, ◌⊎◌, inl, inr, List, Option, none, some, if◌then◌else◌,
}
use configfs.Strings.{Text, text_eq}
use configfs.Proto.{Config}
use configfs.Exec.{Result, ok, err, ◌>>=◌}
use configfs.Api.Server.{Code}
use configfs.Client.{Client}
use configfs.Fs.Index.{get_value, put_value}
use configfs.Fs.Snapshot.{request_failed, Mount, request, id_or_empty, config, full_config}
use configfs.Fs.Nodes.{
  Attr, Options, updated_of, merge_opts_with_attr, read_time, touch, accessed, config_attr,
  content_of, read_all,
}

module _ {R : Type 0} (client : Client R) (id : Text) (m : Mount R) where
  -- what ReadAll asks for
  abbrev pub asked : Result Code Config × R
  asked = client.get_config (id_or_empty (get_value id m.snapshot.index.id_config)) none m.remote

  abbrev pub read_done : Mount R
  read_done = record m { remote = asked.1; times = put_value id m.clock m.times }

  abbrev pub read_failed : Mount R
  read_failed = record m { remote = asked.1 }

  read_from :
      (r : Result Code Config)
      → asked.0 ≡ r
      → ((conf : Config) × (asked.0 ≡ ok conf)
          × (read_all client id m ≡ (ok (content_of conf.content), read_done)))
        ⊎ ((e : Code) × (asked.0 ≡ err e)
            × (read_all client id m ≡ (err (request_failed e), read_failed)))
  unfolding read_all config full_config request touch ◌>>=◌
  read_from (ok conf) p = inl (conf, p, (rw p refl))
  read_from (err e) p = inr (e, p, (rw p refl))

  -- Reading a file asks for the config under the file's id. Either it is returned: the read gives
  -- its content, none as an empty one, and notes the clock for this id; or the request fails: the
  -- read gives that error and no time changes. The tree of the mount stays in both.
  pub read_all_lem :
      ((conf : Config) × (asked.0 ≡ ok conf)
        × (read_all client id m ≡ (ok (content_of conf.content), read_done)))
      ⊎ ((e : Code) × (asked.0 ≡ err e)
          × (read_all client id m ≡ (err (request_failed e), read_failed)))
  read_all_lem = read_from asked.0 refl

atime_merged : (opts : Option Options) (a : Attr) → (merge_opts_with_attr opts a).atime ≡ a.atime
unfolding merge_opts_with_attr
atime_merged none a = refl
atime_merged (some opts) a = refl

module _ {R : Type 0} (opts : Option Options) where
  time_of : Text → Mount R → Option ℕ
  time_of id m =
      read_time (get_value id m.times) (updated_of (get_value id m.snapshot.index.id_config))

  -- Config.Attr returns, and its time is that of the last read, or else that of the last change.
  shown_time :
      (id : Text) (m : Mount R)
      → (a : Attr) × ((config_attr opts id m).0 ≡ ok a) × (a.atime ≡ time_of id m)
  unfolding config_attr config accessed time_of ◌>>=◌
  shown_time id m = (_, refl, atime_merged opts _)

  shown_is :
      (id : Text) (m : Mount R) (a : Attr)
      → (config_attr opts id m).0 ≡ ok a
      → a.atime ≡ time_of id m
  shown_is id m a e = let (b, p, q) = shown_time id m in cc

  -- After a read of a file has returned, the attributes of that file report the clock of the read,
  -- and those of every other file the time that they reported before.
  read_time_lem :
      (client : Client R) (id other : Text) (m : Mount R) (bytes : List ℕ) (a b : Attr)
      → (read_all client id m).0 ≡ ok bytes
      → (config_attr opts other m).0 ≡ ok b
      → (config_attr opts other (read_all client id m).1).0 ≡ ok a
      → a.atime ≡ (if text_eq id other then some m.clock else b.atime)
  unfolding time_of get_value read_time
  read_time_lem client id other m bytes a b done before after = elim (read_all_lem client id m) [
    | inl (conf, p, q) ↦
        let now = shown_is other _ a after in
        elim (Bool-cases (text_eq id other)) [
          | inl same ↦ now ∙ (rw (q, same) refl)
          | inr differ ↦ now ∙ (rw (q, differ, shown_is other m b before) refl)
        ]
    | inr (e, p, q) ↦ cc
  ]
