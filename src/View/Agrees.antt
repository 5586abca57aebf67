-- ===== src/View/Agrees.antt =====
-- The viewer of src/DeltaViewer.cpp walks every delta that the applier of src/Apply.hpp accepts.
use roll.Prelude.{
  ℕ, zero, suc, ◌+◌, ◌≡◌, sym, ap, subst, ◌∙◌, Bool, true, false, some, List, ◌++◌, arith,
}
use roll.Io.{Bytes, ByteInput, FileInput, ByteOutput}
use roll.Io.Action.{ok, err, Action, ◌>>=◌, pure, bind-ok}
use roll.Codec.Reader.{Item, entry, trailer, end_of_stream, next_item, read_header, finish}
use roll.Error.{DeltaError}
use roll.Hash.{StrongHash, SignedChunk}
use roll.Apply.Patch.{reading}
use roll.Apply.Entries.{ApplyRun, reader, apply_entry, apply_trailer, apply_entries, apply_stream}
use roll.View.Follows.{bind-inv, at}
use roll.View.Counts.{apply_entry-counts, apply_trailer-counts}
use roll.View.{
  Console, View, viewed, print, view_entry, view_trailer, view_items, view_stream, view_delta,
  view_status, version_line, total_lines, banner, blake2b_hash_size,
}
use roll.View.Entries.{delta_step, apply_entry-Goes, apply_trailer-Goes}

module _ (console : Console) (U : StrongHash) (I : ByteInput) (F : FileInput) (O : ByteOutput) where
  -- The viewer's loop ends as the applier's does.
  record Walks (fuel chunk_num : ℕ) (r : ApplyRun U I F O) (before : Bytes) (saw_trailer : Bool)
      (r' : ApplyRun U I F O) : Type 0 where
    count : ℕ
    printed : Bytes
    counted : r'.stats.entries_processed + chunk_num ≡ r.stats.entries_processed + count
    runs :
        view_items console I fuel U.hash_size chunk_num (at console I r.delta before)
        ≡ (ok (count, saw_trailer), at console I r'.delta printed)

  abbrev next_view : ℕ → ℕ → Item → View console I (ℕ × Bool)
  next_view fuel chunk_num item = elim item [
    | end_of_stream ↦ pure (chunk_num, false)
    | trailer ↦ view_trailer console I U.hash_size >>= λ u. pure (chunk_num, true)
    | entry ↦ view_entry console I (chunk_num + 1) >>= λ u.
        view_items console I fuel U.hash_size (chunk_num + 1)
  ]

  abbrev next_apply : ℕ → ℕ → List SignedChunk → Item → Action DeltaError (ApplyRun U I F O) Bool
  next_apply fuel max chunks item = elim item [
    | end_of_stream ↦ pure false
    | trailer ↦ apply_trailer U I F O >>= λ u. pure true
    | entry ↦ apply_entry U I F O max chunks >>= λ u. apply_entries U I F O fuel max chunks
  ]

  apply_entries-Walks :
      (fuel max chunk_num : ℕ) (chunks : List SignedChunk) (r r' : ApplyRun U I F O)
      {saw_trailer : Bool} (printed : Bytes)
      → apply_entries U I F O fuel max chunks r ≡ (ok saw_trailer, r')
      → Walks fuel chunk_num r printed saw_trailer r'
  unfolding apply_entries view_items
  apply_entries-Walks zero max chunk_num chunks r r' printed h = absurd cc
  apply_entries-Walks (suc fuel) max chunk_num chunks r r' {saw_trailer} printed h =
      let c =
        go (λ r₁ printed e. apply_entries-Walks fuel max (chunk_num + 1) chunks r₁ r' printed e)
          (next_item I r.delta).0 h in
      record { count = c.0; printed = c.1; counted = c.2; runs = c.3 }
    where
      r₀ : ApplyRun U I F O
      r₀ = record r { delta = (next_item I r.delta).1 }

      Ends : Item → Type 0
      Ends item =
          (count : ℕ) × (printed' : Bytes) × (r'.stats.entries_processed + chunk_num
            ≡ r.stats.entries_processed + count)
          × (next_view fuel chunk_num item (at console I r₀.delta printed)
              ≡ (ok (count, saw_trailer), at console I r'.delta printed'))

      Again : Type 0
      Again =
          (r₁ : ApplyRun U I F O) (printed : Bytes)
          → apply_entries U I F O fuel max chunks r₁ ≡ (ok saw_trailer, r')
          → Walks fuel (chunk_num + 1) r₁ printed saw_trailer r'

      go :
          Again
          → (item : Item) → next_apply fuel max chunks item r₀ ≡ (ok saw_trailer, r')
          → Ends item
      go again end_of_stream e = (
        chunk_num,
        printed,
        ap (λ p. p.1.stats.entries_processed + chunk_num) (sym e),
        λ i. (
          elim (e i).0 [ ok saw ↦ ok (chunk_num, saw) | err x ↦ err x ],
          at console I (e i).1.delta printed,
        ),
      )
      go again trailer e =
          let (u, r₁, e₁, e₂) = bind-inv (apply_trailer U I F O) (λ u. pure true) e in
          let g = apply_trailer-Goes console U I F O r₀ r₁ printed e₁ in
          (
            chunk_num,
            g.printed,
            ap (λ (n : ℕ). n + chunk_num)
                (sym (ap (λ p. p.1.stats.entries_processed) e₂)
                  ∙ apply_trailer-counts U I F O r₀ r₁ e₁),
            bind-ok (view_trailer console I U.hash_size) (λ u. pure (chunk_num, true)) g.runs ∙ λ i.
                (
                  elim (e₂ i).0 [ ok saw ↦ ok (chunk_num, saw) | err x ↦ err x ],
                  at console I (e₂ i).1.delta g.printed,
                ),
          )
      go again entry e =
          let (u, r₁, e₁, e₂) =
            bind-inv (apply_entry U I F O max chunks) (λ u. apply_entries U I F O fuel max chunks)
              e in
          let g = apply_entry-Goes console U I F O max (chunk_num + 1) chunks r₀ r₁ printed e₁ in
          let c = again r₁ g.printed e₂ in
          (
            c.count,
            c.printed,
            omega (arith, c.counted, apply_entry-counts U I F O max chunks r₀ r₁ e₁),
            bind-ok (view_entry console I (chunk_num + 1))
                  (λ u. view_items console I fuel U.hash_size (chunk_num + 1)) g.runs
                ∙ c.runs,
          )

  -- What the viewer does on a delta that takes the applier from `r` to `r'`.
  pub record Agrees (name : Bytes) (r r' : ApplyRun U I F O) : Type 0 where
    pub count : ℕ
    pub printed : Bytes
    pub counted : r'.stats.entries_processed ≡ r.stats.entries_processed + count
    pub walked :
        view_stream console I (at console I r.delta (banner name))
        ≡ (ok count, at console I r'.delta (printed ++ total_lines console count))
    pub status :
        view_delta console I name (some r.delta) ≡ (0, printed ++ total_lines console count)

  -- For any files, hash of the size of the shipped one, limit and signature, whatever they do: if the applier accepts a
  -- delta, then the viewer counts as many entries as the applier does, stops where the applier stops, prints that total
  -- last, and its exit status is 0.
  pub view_delta-apply_stream :
      (name : Bytes) (max : ℕ) (chunks : List SignedChunk) (r r' : ApplyRun U I F O)
      → U.hash_size ≡ blake2b_hash_size
      → apply_stream U I F O max chunks r ≡ (ok tt, r')
      → Agrees name r r'
  unfolding apply_stream view_stream view_delta
  view_delta-apply_stream name max chunks r r' sized h =
      let (u, r₁, e₁, e₂) =
        bind-inv (reader U I F O (read_header I)) (λ u r. walked (suc (I.left r.delta)) r) h in
      let (saw, r₂, e₃, e₄) =
        bind-inv (apply_entries U I F O (suc (I.left r₁.delta)) max chunks)
          (λ saw. reader U I F O (finish I saw)) e₂ in
      let c =
        apply_entries-Walks (suc (I.left r₁.delta)) max 0 chunks r₁ r₂
          (banner name ++ version_line console) e₃ in
      let d₁ = delta_step console U I F O (reading I (read_header I)) r r₁ e₁ in
      let d₂ = delta_step console U I F O (reading I (finish I saw)) r₂ r' e₄ in
      let runs : view_stream console I (at console I r.delta (banner name))
          ≡ (ok c.count, at console I r'.delta (c.printed ++ total_lines console c.count)) =
        bind-ok (viewed console I (reading I (read_header I))) begun
          (λ i. ((d₁ i).0, at console I (d₁ i).1 (banner name)))
        ∙ bind-ok (view_items console I (suc (I.left r₁.delta)) blake2b_hash_size 0) ended (
            subst
              (λ n.
                view_items console I (suc (I.left r₁.delta)) n 0
                  (at console I r₁.delta (banner name ++ version_line console))
                ≡ (ok (c.count, saw), at console I r₂.delta c.printed))
              sized c.runs)
        ∙ bind-ok (viewed console I (reading I (finish I saw))) (λ u. last c.count)
            (λ i. ((d₂ i).0, at console I (d₂ i).1 c.printed)) in
      record {
        count = c.count;
        printed = c.printed;
        counted = omega (
          arith,
          c.counted,
          ap (λ p. p.1.stats.entries_processed) e₁,
          ap (λ p. p.1.stats.entries_processed) e₄,
        );
        walked = runs;
        status = ap (λ p. (view_status console I p.0, p.1.printed)) runs;
      }
    where
      walked : ℕ → Action DeltaError (ApplyRun U I F O) (Unit {0})
      walked fuel = apply_entries U I F O fuel max chunks >>= λ saw. reader U I F O (finish I saw)

      last : ℕ → View console I ℕ
      last chunk_num = print console I (total_lines console chunk_num) >>= λ u. pure chunk_num

      ended : ℕ × Bool → View console I ℕ
      ended (chunk_num, saw) = viewed console I (reading I (finish I saw)) >>= λ u. last chunk_num

      begun : Unit {0} → View console I ℕ
      begun u = print console I (version_line console) >>= λ u v.
          (view_items console I (suc (I.left v.delta)) blake2b_hash_size 0 >>= ended) v
