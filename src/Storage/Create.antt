-- ===== src/Storage/Create.antt =====
-- A bucket that ProcAuCreateBucket of server/dia/audispatch.c creates is the one that was asked for.
use nas.Prelude.{◌≡◌, some, List, arith}
use nas.Storage.{Bucket, Reply}

some-unwrap : (x y : List Bucket × Reply) → some x ≡ some y → x ≡ y
some-unwrap x y e = ground (arith, e)
