-- ===== src/Lib.antt =====
-- Seguridad en Redes: the programs that the repository's practices write in C, and a part of the
-- OpenVPN daemon that the VPN practice builds from its tree.
--
-- practica2/hmacsha1.c prints the HMAC-SHA1 of a file under a key file. practica3/sign.c signs a
-- file with RSA in the EMSA-PKCS1-v1_5 encoding and checks such a signature. The directories
-- practica2/ejemplo_sha1_y_pasar_a_hexadecimal and practica3/pruebas hold the trial programs from
-- which these grew; they call the same OpenSSL functions and often share text with them.
--
-- How a run is modelled (Base/Run). A program is a function from the trace of what has been
-- written (`out` for standard output, `diag` for a message on standard error) to an outcome: it
-- returns a value (`ret`), it leaves the process with a status (`exit`), or it does something the
-- C language leaves undefined (`fault`: an access outside an array, a use of a null pointer, a
-- loop out of fuel). A theorem that says `ret` or `exit` says that there is no fault. Arrays are
-- lists of bytes, passed in and out; Memory.antt has the checked accesses.
--   Posix.antt   open, read, close and argv. A file is the bytes that are left and the turns of
--                the reads to come: how much a read may deliver, or that it fails. A read delivers
--                at least one byte while there are any and room is left.
--   Crypto.antt  OpenSSL's digests, raw RSA, PEM keys and Base64 filters, as parameters with the
--                documented behaviour as named laws (IsLawful, IsSized, IsPair).
--   Hex.antt     converthexa, in all the programs.
--   Feed.antt    the loop that reads a file through a buffer into a digest (hmacsha1, sha512).
--   Hmac.antt    practica2/hmacsha1.c: readkey, hmacsha1, main. Hmac/Keys, Hmac/Pads, Hmac/Laws
--                and Hmac/Program prove it, function by function.
--   Sign.antt    practica3/sign.c: Sign/Block builds the block to sign (concatenaIDsha512,
--                createPadding, concatenaPaddingHash), Sign/Check examines a decrypted block
--                (comprobarPadding, sacarHashFirma, compararHASHES), Sign/Files has sha512,
--                readPrivkey, readPubkey, generarFirmaDigital, leerFirmaB64 and desencryptarMSG,
--                and Sign/Program is main.
--   Labs.antt    the trial programs: Labs/Hola is prueba1sha1.c, Labs/Digest512 is 1sha512.c,
--                Labs/Draft is 2sha512.c and Labs/Final is sign/final.c under practica3/pruebas.
--                Where a function has the text of sign.c its definition is used.
--   Openvpn.antt parts of vpn/openvpn-2.2.1. A failed ASSERT, an index outside an array or a null
--                list ends a computation with `none` (Openvpn/Checked); a theorem that says `some`
--                says that none of these happens. Openvpn/CircList has the macros of circ_list.h,
--                Openvpn/PacketId the replay window of packet_id.c (packet_id_init, packet_id_add,
--                packet_id_reap, packet_id_test); its children hold the sender (Send), the
--                persistence (Persist), the check of a received packet in openvpn_decrypt of
--                crypto.c (Receive), and the theorems on the window, on both modes (Backtrack,
--                Sequence), on packets in order, and on a sender and a receiver together (Exchange);
--                PacketId/Wire and Openvpn/Buffer are packet ids in buffers. Openvpn/Reliable has
--                the order of ids and the acknowledgment records of reliable.c; Reliable/Entries is
--                struct reliable with its buffers; Reliable/Receiver has what ssl.c does with a
--                control packet that comes in (tls_pre_decrypt) and with the one in turn
--                (tls_process); Reliable/Sender has the next outgoing packet, its retries and
--                timeouts. Openvpn/Mbuf is mbuf.c, the ring of counted buffers, with
--                adjust_power_of_2 of misc.c, and Openvpn/Multi is what multi.c puts into it
--                (multi_unicast, and multi_bcast with its tests on the instances); Multi/Contents
--                follows the bytes of the buffers. Openvpn/Pool is pool.c: Pool/Lease and
--                Pool/Changes follow the leases of clients that come and go, Pool/Range and
--                Pool/Distinct their addresses. Pool/File is the pool's file, with the functions of
--                status.c, buffer.c and socket.c that print and parse its lines; Pool/Lines,
--                Pool/Plain, Pool/Persist, Pool/Restored and Pool/Restart are about it.
--                Openvpn/Hash is the hash table of list.c and list.h: Hash/Bucket and Hash/Table say
--                when it is sound, Hash/Lookup, Hash/Added and Hash/Removed what each operation
--                does to the map, and Hash/Runs compares sequences of them with a map.
--   Tests.antt   concrete digests, keys and files, and runs on them.
--
-- How OpenVPN's parts meet. tls_pre_decrypt asks the receiver's struct reliable for a place, saves
-- the packet there and enters its id in the record of acknowledgments; tls_process takes the packet
-- in turn from it and writes it to OpenSSL's BIO, whose answers are a parameter and whose calls are
-- part of what the functions return. multi_bcast puts one buffer into the ring once per client, so
-- the ring and its caller count references to it, in a store of buffers that is passed along. The
-- ring and the hash table take their sizes from adjust_power_of_2, so that a mask finds the place.
-- The time is a parameter of what reads it.
--
-- Fuel and bounds. The loops `for (;;)` that read a file run on fuel, one round more than the file
-- has bytes: each round but the last takes at least one byte. The theorems on the loops prove that
-- no loop runs out of it. Counted loops recurse on the number of rounds, and so does the loop of
-- packet_id_add, whose fuel is the number of ids it skips. reliable_unique_retry has one round more
-- than there are entries, since each round but the last passes the time of another entry, and
-- adjust_power_of_2 has 65, one more than `size_t` has bits; both are proved to end. The loop that
-- reads the pool's file has one round more than the file has bytes, and a line takes at least one
-- of them. The theorems on the reliability layer are for ids below 2^31, where the window of the
-- receiver does not wrap.
--
-- Not modelled: the number in errno and its text, allocation failures other than that of RSA_new,
-- the buffering of stdio; in the hash table, the iterators and the hash function; for the pool's
-- file, inet_ntoa and the sscanf of four numbers, which are the C library's and are parameters; for
-- multi_bcast, the order in which the hash iterator yields the instances and the answers of the
-- packet filter, parameters too; and the rest of OpenVPN: its TLS, options, management interface,
-- sockets and tun devices, which are glue over system calls and OpenSSL, and the Windows parts.
pub mod Base
pub mod Memory
pub mod Posix
pub mod Crypto
pub mod Hex
pub mod Feed
pub mod Hmac
pub mod Sign
pub mod Labs
pub mod Openvpn
mod Tests
