-- ===== src/Lib.antt =====
-- gokrazy-router is a router on one binary: cmd/gokrazy-router reads a JSON configuration, merges the
-- extras file over it, sets up bridges, and starts DHCP servers, a TFTP server for network boot and
-- an HTTP interface, through which the extras file can be reloaded. This library models the parts
-- that decide something and shows what makes them right.
--
-- Prelude holds what the parts share: Boolean tests on native numbers, lists measured by them, texts as
-- lists of bytes, decimal numerals, integers, Go maps as association lists, files made from a template of
-- lines, and calls that act on the world outside (Action): a function from a world, of any type, to a
-- value or an error, and the world after it.
--
-- Mac is `normalizeMAC` of pkg/dhcp, pkg/config and pkg/pxe.
-- Net has addresses as lists of bytes, the operations of Go's net package that the code uses, and `incIP`
-- and `ipGreater` of pkg/dhcp/dhcp.go; Net/Value reads an IPv4 address as a number.
-- Dhcp is pkg/dhcp/dhcp.go. State has the server, `New` and the setters, Pool the scan of `allocate` with
-- what it finds, Alloc `allocate` and the ticker of `reapExpiredLeases`, Reply the `handler`, Steps the
-- schedules of all of these, Start what `New` gives. A server is a record, an operation
-- takes the time and the server and returns the server after it, the calls of the callbacks and what is
-- sent.
-- Config is pkg/config/config.go: the records, `Default`, `ExpandEnv`; Config/Extras the edits of the
-- extras file, Config/Apply `ApplyExtras` and `ExtrasFromConfig`.
-- Macmap is pkg/macmap/macmap.go.
-- Pxe is pkg/pxe/pxe.go: Request has the parser of read requests and the option acknowledgement, Image the
-- choice of a file, Files the way to its descriptor, Wire the waiting for acknowledgements and the retries,
-- Transfer the loop over the blocks, Reader the table of active transfers, Listen the sockets, Serve the
-- whole of `serveFile`, where an error of reading the opened file is left out. The network is a function
-- from the number of an attempt to what happens on it.
-- Reload is cmd/gokrazy-router/main.go: Boot has the boot options of a DHCP server, Users the key of the
-- SMB users, Run the `reloader` with what its files hold afterwards, Admin the handler of `/api/reload`.
-- Vlan is pkg/netsetup/netsetup.go and pkg/vlan/vlan.go, the bridges. Nat is pkg/nat/nat.go: the messages
-- for nftables are data; Nat/Names has the names of interfaces, Nat/Isolation what a batch of rules drops.
-- Startup is the start of cmd/gokrazy-router/main.go: the configuration in effect, the NAT rules and the
-- isolation of VLANs; Startup/Hooks says of messages which chain and hook a rule stands in;
-- Startup/Network has the bridges, the forwarding and these rules, Startup/Dhcp the DHCP servers of all
-- scopes, Startup/AccessPoint the access point with the wait for its interface, its address and its NAT
-- rule.
-- Smb is pkg/smb/smb.go: Validate has the checks, Conf the file smb.conf, Start the operations.
-- Wifi is pkg/wifi/wifi.go: the configuration of hostapd and its output; Wifi/Clients has the list of
-- clients, Wifi/Backoff the restarts.
-- Wifi/Stations is how pkg/wifi/hostapd_ctrl.go reads a reply of hostapd, Wifi/Control its socket.
-- Usbnet is cmd/milkv-usbnet/main.go: Bits has the bits of a number, Gpio the registers, Gadget the files of
-- configfs, Boot the start of the program, which makes a server of Dhcp.
-- Mount is pkg/mount/mount.go: Mount/Wait has the wait for the device, Mount/Commands the commands it runs.
-- Cli is cmd/router-cli/main.go: the edits of the extras file, Cli/Report what `status` prints, Cli/Export
-- the exported map file.
-- Status is the monitor of clients in pkg/status/status.go: State its records, Sample what it reads from
-- the counters, Track what happens when a client comes or goes, as the commands it gives for the rules, Start
-- `New` with the addresses of the router, Run the loop that samples, Ports the status with its ports.
-- Tests has concrete runs, and each theorem at a concrete input.
--
-- The parts meet where the code's do: Reload calls the setters of Dhcp and Pxe and `ApplyExtras` of
-- Config, Dhcp and Config use Mac and Net, Startup makes the rules of Nat for the bridges of Vlan and the
-- servers of Dhcp, and adds the network of the access point to the manager of Nat. Wifi writes the files of
-- Macmap, and Cli merges into them and edits the file of Config.
--
-- Fuel. The scan of `allocate` has one unit for each address from `rangeStart` to `rangeEnd`, the options of
-- a read request one for each byte, a transfer one more than the bytes of the file, the wait for a device one
-- for each half second and one more, that for an interface one for each quarter second and one more, a query
-- of the stations one more than the replies, which hostapd ends. The scan is back at its start after each
-- address once, an option takes a byte at least, and so does a block but the last; a sleep of a wait takes its
-- time. All other loops are structural.
--
-- Parameters. `net.ParseIP`, `net.ParseCIDR`, `net.ParseMAC`, `os.ExpandEnv`, the TOML decoder and
-- `dhcpv4.NewReplyFromRequest` and the `String` of an IP are arguments of the definitions that use them;
-- so are netlink, `Flush` and the lookup of interfaces for Nat, files, processes and `net.SplitHostPort` for
-- Smb, the regular expressions of Wifi, `openat` and `path/filepath` for Pxe, the clock, files and
-- commands of Mount and Usbnet, sysfs for Status, and the floating-point numbers of Cli and of
-- Wifi/Stations; what `GetRules` and `Flush` of the nftables connection return is told to the operations of
-- Status.
--
-- Simplifications. Texts are bytes, and letters are ASCII. A call of `allocate` reads the clock once, and
-- durations are not negative. A range over a map runs in the order of its list. A nil map is an empty
-- one. A read of a regular file fills its buffer or takes what is left. Locks are not modelled: an
-- operation is one step. A rate of Status is the pair of its bytes and its time.
--
-- Not modelled: the datagrams of DHCP on their sockets, the HTTP server, the steps of `main` after the
-- DHCP servers but for the reload, and the boot log of cmd/milkv-usbnet.
-- The texts of some errors lack the values they quote.
pub mod Prelude
pub mod Mac
pub mod Net
pub mod Dhcp
pub mod Config
pub mod Macmap
pub mod Pxe
pub mod Reload
pub mod Status
pub mod Vlan
pub mod Nat
pub mod Startup
pub mod Smb
pub mod Mount
pub mod Usbnet
pub mod Wifi
pub mod Cli
pub mod Tests
