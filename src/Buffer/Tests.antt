-- ===== src/Buffer/Tests.antt =====
-- Runs of src/buffer.c on a buffer of eight bytes that holds "ab" in the middle.
use pdc_pop3d.Prelude.{
  ◌<◌, ◌≡◌, refl, ◌⊎◌, List, [], ◌∷◌, ◌++◌, ℕ, some, arith, length, drop, get_or, pos, ◌-◌,
}
use pdc_pop3d.Buffer.{
  Buffer, buffer_compact, buffer_read_adv, buffer_write_adv, buffer_write, buffer_read, store,
}
use pdc_pop3d.Buffer.Contents.{IsValid, contents, buffer_compact_refines, buffer_read_adv_refines}
use pdc_pop3d.Buffer.Queue.{
  filled, buffer_write_adv_refines, buffer_write_refines, buffer_read_refines,
}

abbrev example : Buffer
example = record { cells = 0 ∷ 0 ∷ 97 ∷ 98 ∷ 0 ∷ 0 ∷ 0 ∷ 0 ∷ []; limit = 8; read = 2; write = 4 }

abbrev two_bytes : List ℕ
two_bytes = 99 ∷ 100 ∷ []

example-IsValid : IsValid example
example-IsValid = omega arith

contents_example : contents example ≡ 97 ∷ 98 ∷ []
contents_example = refl

buffer_compact_example :
    IsValid (buffer_compact example)
    × (contents (buffer_compact example) ≡ contents example)
    × ((buffer_compact example).read ≡ 0)
    × ((buffer_compact example).write ≡ example.write - example.read)
    × ((buffer_compact example).limit ≡ example.limit)
buffer_compact_example = buffer_compact_refines {b = example} example-IsValid

buffer_read_adv_example :
    (b' : Buffer) × (buffer_read_adv example (pos 1) ≡ some b')
    × IsValid b'
    × (contents b' ≡ drop 1 (contents example))
    × (b'.limit ≡ example.limit)
    × ((0 < length (contents b')) ⊎ ((b'.read ≡ 0) × (b'.write ≡ 0)))
buffer_read_adv_example = buffer_read_adv_refines {b = example} 1 example-IsValid (omega arith)

buffer_write_adv_example :
    (buffer_write_adv
        (record example { cells = store example.cells example.write two_bytes })
        (pos (length two_bytes))
      ≡ some (filled example two_bytes))
    × IsValid (filled example two_bytes)
    × (contents (filled example two_bytes) ≡ contents example ++ two_bytes)
buffer_write_adv_example =
    buffer_write_adv_refines {b = example} two_bytes example-IsValid (omega arith)

buffer_write_example :
    (b' : Buffer) × (buffer_write example 99 ≡ some b')
    × IsValid b'
    × (((example.write < example.limit)
          × (contents b' ≡ contents example ++ 99 ∷ [])
          × (b'.read ≡ example.read)
          × (b'.limit ≡ example.limit))
        ⊎ ((example.write ≡ example.limit) × (b' ≡ example)))
buffer_write_example = buffer_write_refines {b = example} 99 example-IsValid

buffer_read_example :
    (b' : Buffer) × (buffer_read example ≡ some (get_or (contents example) 0 0, b'))
    × IsValid b'
    × (contents b' ≡ drop 1 (contents example))
buffer_read_example = buffer_read_refines {b = example} example-IsValid
