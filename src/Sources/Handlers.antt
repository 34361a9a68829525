-- ===== src/Sources/Handlers.antt =====
-- The sources of databases keep the contract of a source (pkg/contracts/contracts.go): they change the
-- state of their reader through the handler alone, and report its errors.
use data_loader.Prelude.{◌≡◌, refl, false, Option, none, some, [], Error, wrap}
use data_loader.Contracts.{Batch, LoadConfig, ReadResult}
use data_loader.SqlIdent.{Unicode}
use data_loader.Pipeline.Ports.{Source, SourceLaws}
use data_loader.Sources.Driver.{SourceDb, Conversions, Query}
use data_loader.Sources.Cursor.{is_first_run, columns_of, fill_row, batch_size_of}
use data_loader.Sources.Cursor.Handlers.{
  After, AfterRead, deliver_after, fail_or, either_read, conclude,
}
use data_loader.Sources.Postgres
use data_loader.Sources.SqlServer

-- A function that reads a load into a handler.
abbrev Reader : Type 0 → Type 0 → Type 0
Reader D S =
    LoadConfig → (Batch → S → Option Error × S) → D → S → (ReadResult × Option Error) × (D × S)

-- What a good state is, a call of the handler that fails may leave a bad one.
abbrev IsFaithful : {D S : Type 0} → Reader D S → Type 1
IsFaithful {D} {S} read =
    (handler : Batch → S → Option Error × S) (good bad : S → Type 0)
    → ((b : Batch) (t : S) → good t → After good bad (handler b t))
    → ((t : S) → good t → bad t)
    → (load : LoadConfig) (d : D) (s : S) → good s
    → AfterRead good bad (read load handler d s)

abbrev reader_source : {D S : Type 0} → Reader D S → D → Source S
reader_source read d = record {
  read = λ cfg handler s. let (r, ds) = read cfg handler d s in (r, ds.1);
}

either-After : {S : Type 0} (P : S → Type 0) (o : Option Error × S) → P o.1 → After P P o
either-After P (none, s) p = p
either-After P (some e, s) p = p

of_either : {S : Type 0} (P : S → Type 0) (o : Option Error × S) → After P P o → P o.1
of_either P (none, s) p = p
of_either P (some e, s) p = p

checked-After :
    {S : Type 0} (P : S → Type 0) (o : Option Error × S)
    → (o.0 ≡ none → P o.1)
    → After P (λ s. Unit) o
checked-After P (none, s) p = p refl
checked-After P (some e, s) p = tt

of_checked :
    {S : Type 0} (P : S → Type 0) (o : Option Error × S)
    → After P (λ s. Unit) o
    → o.0 ≡ none
    → P o.1
of_checked P (none, s) p e = p
of_checked P (some x, s) p e = cc

source_laws :
    {D S : Type 0} (read : Reader D S) (d : D) → IsFaithful read → SourceLaws (reader_source read d)
unfolding AfterRead
source_laws read d faithful = record {
  through_handler = λ P cfg handler s keeps p.
      of_either P _
        (faithful handler P P (λ b t q. either-After P _ (keeps b t q)) (λ t q. q) cfg d s p);
  aborts_on_error = λ P cfg handler s keeps p e.
      of_checked P _
        (faithful handler P (λ s. Unit) (λ b t q. checked-After P _ (keeps b t q)) (λ t q. tt) cfg d
          s p)
        e;
}

module _ {D S : Type 0} (u : Unicode) (go : Conversions) (db : SourceDb D)
    (handler : Batch → S → Option Error × S) (good bad : S → Type 0)
    (calls : (b : Batch) (t : S) → good t → After good bad (handler b t))
    (weaken : (t : S) → good t → bad t) where
  settled : (o : (ReadResult × Option Error) × (D × S)) → good o.1.1 → AfterRead good bad o
  unfolding AfterRead
  settled ((r, none), (d, s)) p = p
  settled ((r, some e), (d, s)) p = weaken s p

  postgres_query_after :
      (load : LoadConfig) (q : Query) (d : D) (s : S)
      → good s
      → AfterRead good bad (Postgres.read_query u go db load q handler d s)
  unfolding Postgres.read_query
  postgres_query_after load q d s p =
      let (r, d') = db.query q.text q.args d in
      fail_or good bad r (wrap "execute source query") d' s _ (weaken s p) (λ cursor.
        fail_or good bad cursor.column_types (wrap "column types") d' s _ (weaken s p) (λ types.
          conclude good bad _
            (λ rows_read. record {
              rows_read = rows_read;
              new_watermark = q.new_watermark;
              watermark_init = false;
            })
            d'
            (deliver_after handler (columns_of Postgres.map_driver_type types)
              (λ vs.
                fill_row (Postgres.normalize_value go) (columns_of Postgres.map_driver_type types)
                  vs [])
              (wrap "scan row") (batch_size_of load.batch_size) good bad calls weaken
              (wrap "iterate rows") cursor s p)))

  postgres_after :
      (load : LoadConfig) (d : D) (s : S)
      → good s
      → AfterRead good bad (Postgres.read u go db load handler d s)
  unfolding Postgres.read
  postgres_after load d s p =
      let (max, d₁) =
        Postgres.current_max_watermark u go db load.object_name load.watermark_column
          load.watermark_type d in
      let (query, d₂) = Postgres.build_query u go db load d in
      either_read good bad (is_first_run load) _ _
        (fail_or good bad max (wrap "initialize watermark") d₁ s _ (weaken s p)
          (λ upper. settled _ p))
        (fail_or good bad query (λ e. e) d₂ s _ (weaken s p)
          (λ q. postgres_query_after load q d₂ s p))

  sqlserver_query_after :
      (load : LoadConfig) (q : Query) (d : D) (s : S)
      → good s
      → AfterRead good bad (SqlServer.read_query u go db load q handler d s)
  unfolding SqlServer.read_query
  sqlserver_query_after load q d s p =
      let (r, d') = db.query q.text q.args d in
      fail_or good bad r (wrap "query source") d' s _ (weaken s p) (λ cursor.
        fail_or good bad cursor.column_types (λ e. e) d' s _ (weaken s p)
          (λ types.
            conclude good bad _
              (λ rows_read. record {
                rows_read = rows_read;
                new_watermark = q.new_watermark;
                watermark_init = false;
              })
              d'
              (deliver_after handler (columns_of SqlServer.canonical_type types)
                (λ vs.
                  fill_row (SqlServer.normalize_value go)
                    (columns_of SqlServer.canonical_type types) vs [])
                (λ e. e) (batch_size_of load.batch_size) good bad calls weaken (λ e. e) cursor s
                p)))

  sqlserver_after :
      (load : LoadConfig) (d : D) (s : S)
      → good s
      → AfterRead good bad (SqlServer.read u go db load handler d s)
  unfolding SqlServer.read
  sqlserver_after load d s p =
      let (query, d') = SqlServer.build_query u go db load d in
      either_read good bad (is_first_run load) _ _ (settled _ p) (
        fail_or good bad query (λ e. e) d' s _ (weaken s p)
          (λ q. sqlserver_query_after load q d' s p))

module _ {D S : Type 0} (u : Unicode) (go : Conversions) (db : SourceDb D) (d : D) where
  -- The Postgres source, over any database, keeps the laws of a source.
  pub postgres-SourceLaws : SourceLaws (Postgres.source u go db {S = S} d)
  postgres-SourceLaws =
      source_laws (λ cfg handler c s. Postgres.read u go db cfg handler c s) d
        (λ handler good bad calls weaken. postgres_after u go db handler good bad calls weaken)

  -- The SQL Server source, over any database, keeps the laws of a source.
  pub sqlserver-SourceLaws : SourceLaws (SqlServer.source u go db {S = S} d)
  sqlserver-SourceLaws =
      source_laws (λ cfg handler c s. SqlServer.read u go db cfg handler c s) d
        (λ handler good bad calls weaken. sqlserver_after u go db handler good bad calls weaken)
