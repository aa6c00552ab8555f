-- ===== src/Tests/Wire.antt =====
-- A concrete encoding of batches, of which a text is read back.
use rustory.Prelude.{
  ℕ, zero, suc, ℤ, pos, negsuc, Text, Option, none, some, List, [], ◌∷◌, ◌≡◌, refl, length, ap,
}
use rustory.Core.{Entry}
use rustory.Storage.Entries.{PullBatch}
use rustory.Transport.Client.{WireJson}
use rustory.Tests.{seconds}

abbrev pub Parsed : Type 0 → Type 0
Parsed A = Option (A × Text)

abbrev pub then_read : {A B : Type 0} → Parsed A → (A → Text → Parsed B) → Parsed B
then_read none f = none
then_read (some (a, rest)) f = f a rest

-- A writer in front of a rest and a reader that finds both again.
pub record Format (A : Type 0) : Type 0 where
  pub write : A → Text → Text
  pub read : Text → Parsed A
  pub read-write : (a : A) (rest : Text) → read (write a rest) ≡ some (a, rest)

abbrev pub read_ℕ : Text → Parsed ℕ
read_ℕ [] = none
read_ℕ (n ∷ rest) = some (n, rest)

abbrev pub number : Format ℕ
number = record { write = λ n rest. n ∷ rest; read = read_ℕ; read-write = λ n rest. refl }

-- The values of `B` as values of `A`.
abbrev pub via :
    {A B : Type 0} → Format A → (f : B → A) (g : A → B) → ((b : B) → g (f b) ≡ b) → Format B
via a f g h = record {
  write = λ b. a.write (f b);
  read = λ t. then_read (a.read t) (λ x rest. some (g x, rest));
  read-write = λ b rest. rw (a.read-write (f b) rest, h b) refl;
}

abbrev pub both : {A B : Type 0} → Format A → Format B → Format (A × B)
both a b = record {
  write = λ p rest. a.write p.0 (b.write p.1 rest);
  read = λ t. then_read (a.read t) (λ x r. then_read (b.read r) (λ y r'. some ((x, y), r')));
  read-write = λ p rest. rw (a.read-write p.0 (b.write p.1 rest), b.read-write p.1 rest) refl;
}

module _ {A : Type 0} (a : Format A) where
  abbrev pub write_all : List A → Text → Text
  write_all [] rest = rest
  write_all (x ∷ xs) rest = a.write x (write_all xs rest)

  abbrev pub read_all : ℕ → Text → Parsed (List A)
  read_all zero t = some ([], t)
  read_all (suc n) t =
      then_read (a.read t) (λ x r. then_read (read_all n r) (λ xs r'. some (x ∷ xs, r')))

  pub read_all-write_all :
      (xs : List A) (rest : Text) → read_all (length xs) (write_all xs rest) ≡ some (xs, rest)
  read_all-write_all [] rest = refl
  read_all-write_all (x ∷ xs) rest =
      rw (a.read-write x (write_all xs rest), read_all-write_all xs rest) refl

  abbrev pub many : Format (List A)
  many = record {
    write = λ xs rest. length xs ∷ write_all xs rest;
    read = λ t. then_read (read_ℕ t) (λ n r. read_all n r);
    read-write = read_all-write_all;
  }

abbrev of_ℤ : ℤ → ℕ × ℕ
of_ℤ (pos n) = (0, n)
of_ℤ (negsuc n) = (1, n)

abbrev to_ℤ : ℕ × ℕ → ℤ
to_ℤ (zero, n) = pos n
to_ℤ (suc _, n) = negsuc n

pub to_ℤ-of_ℤ : (z : ℤ) → to_ℤ (of_ℤ z) ≡ z
to_ℤ-of_ℤ (pos n) = refl
to_ℤ-of_ℤ (negsuc n) = refl

abbrev integer : Format ℤ
integer = via (both number number) of_ℤ to_ℤ to_ℤ-of_ℤ

abbrev of_option : Option ℤ → List ℤ
of_option none = []
of_option (some z) = z ∷ []

abbrev to_option : List ℤ → Option ℤ
to_option [] = none
to_option (z ∷ zs) = some z

pub to_option-of_option : (o : Option ℤ) → to_option (of_option o) ≡ o
to_option-of_option none = refl
to_option-of_option (some z) = refl

abbrev Fields : Type 0
Fields = (Text × Text) × ((Text × Text) × ((Text × Text) × ((Text × Text) × (ℤ × (ℤ × ℤ)))))

abbrev fields : Entry ℤ → Fields
fields e = (
  (e.entry_id, e.device_id),
  (
    (e.user_id, e.cmd),
    ((e.cwd, e.shell), ((e.hostname, e.version), (e.ts, (e.exit_code, e.duration_ms)))),
  ),
)

abbrev of_fields : Fields → Entry ℤ
of_fields
      (
        (entry_id, device_id),
        ((user_id, cmd), ((cwd, shell), ((hostname, version), (ts, (exit_code, duration_ms))))),
      ) =
    record {
      entry_id = entry_id;
      device_id = device_id;
      user_id = user_id;
      ts = ts;
      cmd = cmd;
      cwd = cwd;
      exit_code = exit_code;
      duration_ms = duration_ms;
      shell = shell;
      hostname = hostname;
      version = version;
    }

abbrev pub texts : Format (Text × Text)
texts = both (many number) (many number)

abbrev pub an_entry : Format (Entry ℤ)
an_entry =
    via (both texts (both texts (both texts (both texts (both integer (both integer integer))))))
      fields of_fields (λ e. refl)

abbrev batches : Format (PullBatch ℤ)
batches =
    via (both (many an_entry) (many integer)) (λ b. (b.entries, of_option b.next_cursor))
      (λ p. record { entries = p.0; next_cursor = to_option p.1 })
      (λ b.
        ap (λ o. record { entries = b.entries; next_cursor = o })
          (to_option-of_option b.next_cursor))

abbrev pub whole : {A : Type 0} → Parsed A → Option A
whole none = none
whole (some (a, rest)) = some a

instance abbrev pub wire : WireJson ℤ
wire = record {
  batch_text = λ b. batches.write b [];
  text_batch = λ t. whole (batches.read t);
  text_batch-batch_text = λ b. ap whole (batches.read-write b []);
  entries_body = λ es. (many an_entry).write es [];
}
