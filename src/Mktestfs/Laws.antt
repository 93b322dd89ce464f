-- ===== src/Mktestfs/Laws.antt =====
-- mktestfs.c: what the program does once its image is made.
use klee_testfs.Common.{◌^◌, ◌<◌, ◌≡◌}
use klee_testfs.Machine.{Machine, SuperBlock, stop, undefined}
use klee_testfs.Machine.Run.{then_ok}
use klee_testfs.Dir.Create.{make_root_dir, create_file_or_dir}
use klee_testfs.Super.Mount.Restart.{restarted}
use klee_testfs.Mktestfs.{mktestfs}
use klee_testfs.Mktestfs.Image.{make_image-Mounted}

pub mktestfs-undefined :
    (m : Machine) (sb : SuperBlock) → m.time < 2 ^ 64 → mktestfs (restarted m sb) ≡ stop undefined
unfolding mktestfs make_root_dir create_file_or_dir
mktestfs-undefined m sb time =
    let (n, made, mounted) = make_image-Mounted m sb time in then_ok _ made
