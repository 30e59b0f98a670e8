-- ===== src/Main/Arguments/Configs.antt =====
-- When `parseArgs` succeeds, and with what.
use Prim.Native.String.{String}
use ece375_project.Base.{
  ℕ, ◌≡◌, refl, ◌↔◌, ◌∙◌, sym, true, false, List, [], ◌∷◌, ◌++◌, none, some, inl, inr, Option-cases,
  Bool-cases,
}
use ece375_project.Streams.{Reader, Files}
use ece375_project.Cache.{CacheConfig}
use ece375_project.Main.Arguments.{
  Parser, ◌>>=◌, parse_next_line, parse_config, parse_configs, parse_args,
}

-- The numbers of a configuration, in the order of the file.
abbrev pub numbers : CacheConfig → List ℕ
numbers c = c.cache_size ∷ c.block_size ∷ c.ways ∷ c.miss_latency ∷ []

module _ {S : Type 0} (r : Reader S) where
  -- The next lines of the stream begin with these numbers, and `s'` is what follows them.
  abbrev pub Reads : List ℕ → S → S → Type 0
  Reads [] s s' = s ≡ s'
  Reads (v ∷ vs) s s' =
      (r.good (r.extract 32 0 s).1 ≡ true)
      × ((r.extract 32 0 s).0 ≡ v)
      × Reads vs (r.skip_line (r.extract 32 0 s).1) s'

  -- One line, and then the rest.
  module _ {A : Type 0} (f : ℕ → Parser S A) (s : S) where
    read_line :
        r.good (r.extract 32 0 s).1 ≡ true
        → (parse_next_line r >>= f) s ≡ f (r.extract 32 0 s).0 (r.skip_line (r.extract 32 0 s).1)
    unfolding parse_next_line
    read_line good = rw (◌>>=◌, parse_next_line, good)

    read_failed : r.good (r.extract 32 0 s).1 ≡ false → (parse_next_line r >>= f) s ≡ none
    unfolding parse_next_line
    read_failed bad = rw (◌>>=◌, parse_next_line, bad)

    line_read :
        {b : A × S}
        → (parse_next_line r >>= f) s ≡ some b
        → (r.good (r.extract 32 0 s).1 ≡ true)
          × (f (r.extract 32 0 s).0 (r.skip_line (r.extract 32 0 s).1) ≡ some b)
    line_read h = elim (Bool-cases (r.good (r.extract 32 0 s).1)) [
      | inl good ↦ (good, sym (read_line good) ∙ h)
      | inr bad ↦ absurd (cc (h, read_failed bad))
    ]

  >>=-some :
      {A B : Type 0} (p : Parser S A) (f : A → Parser S B) (s : S) {a : A} {t : S}
      → p s ≡ some (a, t)
      → (p >>= f) s ≡ f a t
  >>=-some p f s e = rw (◌>>=◌, e)

  >>=-none :
      {A B : Type 0} (p : Parser S A) (f : A → Parser S B) (s : S) → p s ≡ none → (p >>= f) s ≡ none
  >>=-none p f s e = rw (◌>>=◌, e)

  >>=-eq-some :
      {A B : Type 0} (p : Parser S A) (f : A → Parser S B) (s : S) {b : B × S}
      → (p >>= f) s ≡ some b
      → (a : A) × (t : S) × (p s ≡ some (a, t)) × (f a t ≡ some b)
  >>=-eq-some p f s h = elim (Option-cases (p s)) [
    | inl e ↦ absurd (cc (h, >>=-none p f s e))
    | inr ((a, t), e) ↦ (a, t, e, sym (>>=-some p f s e) ∙ h)
  ]

  parse_config-Reads :
      (s s' : S) (c : CacheConfig) → parse_config r s ≡ some (c, s') → Reads (numbers c) s s'
  unfolding parse_config
  parse_config-Reads s s' c h =
      let (g1, h1) = line_read _ s h in
      let (g2, h2) = line_read _ _ h1 in
      let (g3, h3) = line_read _ _ h2 in
      let (g4, h4) = line_read _ _ h3 in (g1, cc h4, (g2, cc h4, (g3, cc h4, (g4, cc h4, cc h4))))

  Reads-parse_config :
      (s s' : S) (c : CacheConfig) → Reads (numbers c) s s' → parse_config r s ≡ some (c, s')
  unfolding parse_config
  Reads-parse_config s s' c (g1, e1, (g2, e2, (g3, e3, (g4, e4, last)))) =
      read_line _ s g1
      ∙ read_line _ _ g2
      ∙ read_line _ _ g3
      ∙ read_line _ _ g4
      ∙ cc (e1, e2, e3, e4, last)

  Reads-append :
      (vs ws : List ℕ) (s t s' : S) → Reads vs s t → Reads ws t s' → Reads (vs ++ ws) s s'
  Reads-append [] ws s t s' a b = rw a b
  Reads-append (v ∷ vs) ws s t s' (g, e, a) b = (g, e, Reads-append vs ws _ t s' a b)

  append-Reads :
      (vs ws : List ℕ) (s s' : S) → Reads (vs ++ ws) s s' → (t : S) × Reads vs s t × Reads ws t s'
  append-Reads [] ws s s' h = (s, refl, h)
  append-Reads (v ∷ vs) ws s s' (g, e, h) =
      let (t, a, b) = append-Reads vs ws _ s' h in (t, (g, e, a), b)

  -- Both configurations.
  configs-Reads :
      (s s' : S) (ic dc : CacheConfig)
      → parse_configs r s ≡ some ((ic, dc), s')
      → Reads (numbers ic ++ numbers dc) s s'
  unfolding parse_configs
  configs-Reads s s' ic dc h =
      let (ic', t, e, h1) = >>=-eq-some (parse_config r) _ s h in
      let (dc', t', e', h2) = >>=-eq-some (parse_config r) _ t h1 in
      Reads-append (numbers ic) (numbers dc) s t s' (parse_config-Reads s t ic (cc (e, h2)))
        (parse_config-Reads t s' dc (cc (e', h2)))

  Reads-configs :
      (s s' : S) (ic dc : CacheConfig)
      → Reads (numbers ic ++ numbers dc) s s'
      → parse_configs r s ≡ some ((ic, dc), s')
  unfolding parse_configs
  Reads-configs s s' ic dc h =
      let (t, a, b) = append-Reads (numbers ic) (numbers dc) s s' h in
      >>=-some (parse_config r) _ s (Reads-parse_config s t ic a)
      ∙ >>=-some (parse_config r) _ t (Reads-parse_config t s' dc b)

  -- Called with a program file and a configuration file that opens, parseArgs gives that program
  -- and two configurations exactly if the next eight lines of the configuration file begin with
  -- numbers that >> takes, and these are the size, the block size, the ways and the miss latency
  -- of the instruction cache and then of the data cache.
  pub parse_args_iff :
      (files : Files S) (program input_file cache_file : String) (ic dc : CacheConfig) (s : S)
      → files.text cache_file ≡ some s
      → (parse_args r files (program ∷ input_file ∷ cache_file ∷ []) ≡ some (input_file, ic, dc))
        ↔ ((s' : S) × Reads (numbers ic ++ numbers dc) s s')
  unfolding parse_args
  parse_args_iff files program input_file cache_file ic dc s opened = (there, back)
    where
      there :
          parse_args r files (program ∷ input_file ∷ cache_file ∷ []) ≡ some (input_file, ic, dc)
          → (s' : S) × Reads (numbers ic ++ numbers dc) s s'
      there h = elim (Option-cases (parse_configs r s)) [
        | inl e ↦ absurd (cc (h, refused e))
        | inr ((configs, t), e) ↦
            (t, configs-Reads s t ic dc (e ∙ cc (sym h ∙ accepted configs t e)))
      ]
        where
          refused :
              parse_configs r s ≡ none
              → parse_args r files (program ∷ input_file ∷ cache_file ∷ []) ≡ none
          refused e = rw (parse_args, opened, e)

          accepted :
              (configs : CacheConfig × CacheConfig) (t : S)
              → parse_configs r s ≡ some (configs, t)
              → parse_args r files (program ∷ input_file ∷ cache_file ∷ [])
                ≡ some (input_file, configs.0, configs.1)
          accepted configs t e = rw (parse_args, opened, e)

      back :
          (s' : S) × Reads (numbers ic ++ numbers dc) s s'
          → parse_args r files (program ∷ input_file ∷ cache_file ∷ []) ≡ some (input_file, ic, dc)
      back (s', h) = rw (parse_args, opened, Reads-configs s s' ic dc h)
