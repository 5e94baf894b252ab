-- ===== src/Disk/Laws.antt =====
-- What reads of the disk see after each change.
use s3_2_smb.Base.{Bytes, ◌≡◌, none, some, arith, eqb, if◌then◌else◌, lookup, lookup-erase}
use s3_2_smb.Disk.{Disk, file, put, delete, unlink}

pub file-put :
    (d : Disk) (p q c : Bytes) → file (put d p c) q ≡ (if eqb p q then some c else file d q)
unfolding file put lookup
file-put d p q c = ground (arith, lookup-erase p q d.files)

pub file-delete :
    (d : Disk) (p q : Bytes) → file (delete d p) q ≡ (if eqb p q then none else file d q)
unfolding file delete
file-delete d p q = lookup-erase p q d.files

-- Removing a file leaves the faults, and every file is as it was or gone.
pub unlink-fault : (d : Disk) (p : Bytes) → (unlink d p).1.fault ≡ d.fault
unfolding unlink delete
unlink-fault d p = ground arith

pub file-unlink : (d : Disk) (p q c : Bytes) → file (unlink d p).1 q ≡ some c → file d q ≡ some c
unfolding unlink
file-unlink d p q c h = ground (arith, file-delete d p q)
